-- ===== src/Synch/Condition/Queues.antt =====
-- Queues of semaphores of threads that wait on a condition, and what Broadcast makes of them.
use nachos_project_2_os_subj.Base.{
  ℕ, ◌≡◌, ◌∙◌, refl, ap, arith, ◌==◌, true, false, List, [], ◌∷◌, ◌++◌, length, Option, none, some,
  ok,
}
use nachos_project_2_os_subj.Synch.{Semaphore, semaphore, v, Lock, is_held_by}
use nachos_project_2_os_subj.Synch.Condition.{
  Waiters, store_waiter, signal, and_woken, broadcast_from,
}
use nachos_project_2_os_subj.Lists.Chains.{member, member-append}

-- A waiting thread: the address of its semaphore, and the thread if it sleeps there already.
abbrev pub Waiter : Type 0
Waiter = ℕ × Option ℕ

unfoldable pub addresses : List Waiter → List ℕ
addresses [] = []
addresses (w ∷ ws) = w.0 ∷ addresses ws

-- The threads that sleep, in order.
unfoldable pub sleepers : List Waiter → List ℕ
sleepers [] = []
sleepers (w ∷ ws) = and_woken w.1 (sleepers ws)

-- The semaphore of a thread that waits.
abbrev pub empty_for : Option ℕ → Semaphore
empty_for none = semaphore 0
empty_for (some thread) = record { value = 0; queue = thread ∷ [] }

-- At the addresses, all of them different, lie the semaphores of the waiting threads.
pub data Waits (waiters : Waiters) : List Waiter → Type 0 where
  nobody : Waits waiters []
  somebody :
      (a : ℕ) (o : Option ℕ) (ws : List Waiter)
      → waiters a ≡ empty_for o
      → member a (addresses ws) ≡ false
      → Waits waiters ws
      → Waits waiters ((a, o) ∷ ws)

-- The semaphores after V of each.
unfoldable pub raised : Waiters → List Waiter → Waiters
raised waiters [] = waiters
raised waiters (w ∷ ws) = raised (store_waiter waiters w.0 (semaphore 1)) ws

pub Waits-store :
    (waiters : Waiters) (ws : List Waiter) (a : ℕ) (s : Semaphore)
    → member a (addresses ws) ≡ false
    → Waits waiters ws
    → Waits (store_waiter waiters a s) ws
unfolding member addresses
Waits-store waiters _ a s m nobody = nobody
Waits-store waiters _ a s m (somebody b o ws e n h) =
    let apart : (a == b) ≡ false = ground arith in
    let here : store_waiter waiters a s b ≡ empty_for o = rw apart e in
    somebody b o ws here n (Waits-store waiters ws a s (ground arith) h)

pub addresses-append :
    (ws : List Waiter) (w : Waiter) → addresses (ws ++ w ∷ []) ≡ addresses ws ++ w.0 ∷ []
unfolding addresses
addresses-append [] w = refl
addresses-append (x ∷ ws) w = ap (λ rest. x.0 ∷ rest) (addresses-append ws w)

pub Waits-append :
    (waiters : Waiters) (ws : List Waiter) (a : ℕ) (o : Option ℕ)
    → waiters a ≡ empty_for o
    → member a (addresses ws) ≡ false
    → Waits waiters ws
    → Waits waiters (ws ++ (a, o) ∷ [])
unfolding member addresses
Waits-append waiters _ a o e m nobody = somebody a o [] e refl nobody
Waits-append waiters _ a o e m (somebody b q ws f n h) =
    let apart : member b (addresses (ws ++ (a, o) ∷ [])) ≡ false =
      rw (addresses-append ws (a, o), member-append b (addresses ws) a, n) (ground arith) in
    somebody b q (ws ++ (a, o) ∷ []) f apart (Waits-append waiters ws a o e (ground arith) h)

raised_other :
    (ws : List Waiter) (waiters : Waiters) (a : ℕ)
    → member a (addresses ws) ≡ false
    → raised waiters ws a ≡ waiters a
unfolding raised member addresses
raised_other [] waiters a m = refl
raised_other (w ∷ ws) waiters a m =
    let apart : (w.0 == a) ≡ false = ground arith in
    raised_other ws (store_waiter waiters w.0 (semaphore 1)) a (ground arith) ∙ rw apart refl

-- The last of them is raised too.
pub raised_last :
    (ws : List Waiter) (waiters : Waiters) (a : ℕ) (o : Option ℕ)
    → raised waiters (ws ++ (a, o) ∷ []) a ≡ semaphore 1
unfolding raised
raised_last [] waiters a o = let same : (a == a) ≡ true = ground arith in rw same refl
raised_last (w ∷ ws) waiters a o = raised_last ws (store_waiter waiters w.0 (semaphore 1)) a o

signalled :
    (ws : List ℕ) (waiters : Waiters) (l : Lock) (holder a : ℕ) (o : Option ℕ)
    → is_held_by l holder ≡ true
    → waiters a ≡ empty_for o
    → signal (record { wait_queue = a ∷ ws }) waiters l holder
      ≡ ok (record { wait_queue = ws }, store_waiter waiters a (semaphore 1), o)
unfolding signal v
signalled ws waiters l holder a none h e = rw (h, e) refl
signalled ws waiters l holder a (some thread) h e = rw (h, e) refl

pub broadcast_from_lem :
    (ws : List Waiter) (waiters : Waiters) (l : Lock) (holder : ℕ)
    → is_held_by l holder ≡ true
    → Waits waiters ws
    → broadcast_from (length (addresses ws)) (record { wait_queue = addresses ws }) waiters l holder
      ≡ ok (record { wait_queue = [] }, raised waiters ws, sleepers ws)
unfolding broadcast_from addresses sleepers raised
broadcast_from_lem [] waiters l holder h nobody = refl
broadcast_from_lem ((a, o) ∷ ws) waiters l holder h (somebody _ _ _ e m rest) =
    let later =
      broadcast_from_lem ws (store_waiter waiters a (semaphore 1)) l holder h
        (Waits-store waiters ws a (semaphore 1) m rest) in
    rw (signalled (addresses ws) waiters l holder a o h e, later) refl
