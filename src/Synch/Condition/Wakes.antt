-- ===== src/Synch/Condition/Wakes.antt =====
-- A thread that waits on a condition does not miss the next broadcast.
use nachos_project_2_os_subj.Base.{
  ℕ, ◌≡◌, refl, true, false, arith, List, [], ◌∷◌, ◌++◌, Option, none, some, ok, ◌>>=◌, ◌==◌,
}
use nachos_project_2_os_subj.Synch.{Semaphore, semaphore, p, v, Lock, is_held_by, release, acquire}
use nachos_project_2_os_subj.Synch.Condition.{
  Condition, Waiters, store_waiter, Waiting, wait, resume, broadcast,
}
use nachos_project_2_os_subj.Synch.Condition.Queues.{
  Waiter, addresses, sleepers, Waits, Waits-store, Waits-append, addresses-append, raised,
  raised_last, broadcast_from_lem,
}
use nachos_project_2_os_subj.Lists.Chains.{member}

-- A queue of waiting threads, after a broadcast by the holder of a lock: each thread that slept is
-- made ready, in order, and the last one, which waits at `a`, passes its P and goes on to acquire
-- the lock.
pub PassedOn : Condition → Waiters → (woken : List ℕ) → (a t : ℕ) → Lock → ℕ → Type 0
PassedOn c waiters woken a t l holder =
    (after : Waiters) × (broadcast c waiters l holder
      ≡ ok (record { wait_queue = [] }, after, woken))
    × ((l' : Lock)
        → resume after a l' t
          ≡ (acquire l' t >>= λ r. ok (store_waiter after a (semaphore 0), some r)))

wakes :
    (ws : List Waiter) (a t : ℕ) (o : Option ℕ) (waiters : Waiters) (l : Lock) (holder : ℕ)
    → is_held_by l holder ≡ true
    → Waits waiters (ws ++ (a, o) ∷ [])
    → PassedOn
        (record { wait_queue = addresses ws ++ a ∷ [] })
        waiters
        (sleepers (ws ++ (a, o) ∷ []))
        a
        t
        l
        holder
unfolding PassedOn broadcast resume p
wakes ws a t o waiters l holder h w =
    let queued = addresses-append ws (a, o) in
    let emptied = broadcast_from_lem (ws ++ (a, o) ∷ []) waiters l holder h w in
    (
      raised waiters (ws ++ (a, o) ∷ []),
      rw queued at emptied,
      λ l'. rw (raised_last ws waiters a o) refl,
    )

-- Where some threads wait on a condition, at semaphores of their own, some of them asleep and
-- others not yet, and one more, which holds the lock, calls Wait with a semaphore at a new address:
-- it comes to its P with the lock released; if it runs on before others it sleeps; and whether it
-- sleeps or not, a Broadcast by the holder of a lock then empties the queue, makes ready each
-- thread that sleeps, in order, and no other, and the new one, when it runs, passes its P and goes
-- on to acquire the lock.
pub wait_wakes :
    (ws : List Waiter) (waiters : Waiters) (a t holder : ℕ) (l l' : Lock)
    → Waits waiters ws
    → member a (addresses ws) ≡ false
    → is_held_by l t ≡ true
    → is_held_by l' holder ≡ true
    → (x : Waiting) × (wait (record { wait_queue = addresses ws }) waiters l a t ≡ ok x)
      × (release l t ≡ ok (x.lock, x.woken))
      × PassedOn x.condition x.waiters (sleepers (ws ++ (a, none) ∷ [])) a t l' holder
      × (slept : Waiters) × (resume x.waiters a x.lock t ≡ ok (slept, none))
      × PassedOn x.condition slept (sleepers (ws ++ (a, some t) ∷ [])) a t l' holder
unfolding wait release resume p
wait_wakes ws waiters a t holder l l' w new h k =
    let here : (a == a) ≡ true = ground arith in
    let first = store_waiter waiters a (semaphore 0) in
    let first_at : first a ≡ semaphore 0 = rw here refl in
    let asleep_t : Semaphore = record { value = 0; queue = t ∷ [] } in
    let second = store_waiter first a asleep_t in
    let second_at : second a ≡ asleep_t = rw here refl in
    let w₁ = Waits-store waiters ws a (semaphore 0) new w in
    let w₂ = Waits-store first ws a asleep_t new w₁ in
    let x : Waiting = record {
      condition = record { wait_queue = addresses ws ++ a ∷ [] };
      waiters = first;
      lock = record { semaphore = (v l.semaphore).0; lock_holder = none };
      woken = (v l.semaphore).1;
    } in
    (
      x,
      rw h refl,
      rw h refl,
      wakes ws a t none first l' holder k (Waits-append first ws a none first_at new w₁),
      second,
      rw first_at refl,
      wakes ws a t (some t) second l' holder k (Waits-append second ws a (some t) second_at new w₂),
    )
