-- ===== src/Synch/Condition.antt =====
-- threads/synch.h and threads/synch.cc: condition variables. Each waiting thread has a semaphore of
-- its own, in the queue of the condition, and named by its address.
pub mod Queues
pub mod Wakes
use nachos_project_2_os_subj.Base.{
  ℕ, zero, suc, List, [], ◌∷◌, ◌++◌, length, Option, none, some, Result, ok, err, out_of_fuel,
  ◌>>=◌, ◌>>◌, assert, if◌then◌else◌, ◌==◌,
}
use nachos_project_2_os_subj.Synch.{
  Semaphore, semaphore, p, passed, asleep, v, Lock, is_held_by, release, Acquire, acquire,
}

-- `wait_queue` holds the addresses of the semaphores of the waiting threads, the longest waiting
-- first.
pub record Condition : Type 0 where
  pub wait_queue : List ℕ

-- Condition::Condition
abbrev pub condition : Condition
condition = record { wait_queue = [] }

-- The memory that the semaphores lie in.
abbrev pub Waiters : Type 0
Waiters = ℕ → Semaphore

abbrev pub store_waiter : Waiters → ℕ → Semaphore → Waiters
store_waiter waiters a s b = if a == b then s else waiters b

-- What Wait leaves before its P, with the thread that the release of the lock makes ready.
pub record Waiting : Type 0 where
  pub condition : Condition
  pub waiters : Waiters
  pub lock : Lock
  pub woken : Option ℕ

-- Condition::Wait up to its P, with a new semaphore at the address `waiter`. Interrupts are on from
-- here to the P, so that others may run.
unfoldable pub wait : Condition → Waiters → Lock → (waiter thread : ℕ) → Result Waiting
unfolding release is_held_by
wait c waiters l waiter thread = do
  assert (is_held_by l thread)
  released ← release l thread
  ok (record {
    condition = record { wait_queue = c.wait_queue ++ waiter ∷ [] };
    waiters = store_waiter waiters waiter (semaphore 0);
    lock = released.0;
    woken = released.1;
  })

-- Condition::Wait from its P on, when the thread runs, for the first time or again: the Acquire of
-- the lock, or `none` where the thread sleeps.
unfoldable pub resume : Waiters → (waiter : ℕ) → Lock → ℕ → Result (Waiters × Option Acquire)
unfolding p acquire
resume waiters waiter l thread = do
  round ← p (waiters waiter) thread
  elim round [
    | passed s ↦ acquire l thread >>= λ a. ok (store_waiter waiters waiter s, some a)
    | asleep s ↦ ok (store_waiter waiters waiter s, none)
  ]

-- Condition::Signal: the queue, the semaphores, and the thread made ready.
unfoldable pub signal : Condition → Waiters → Lock → ℕ → Result (Condition × Waiters × Option ℕ)
unfolding v is_held_by
signal c waiters l thread = do
  assert (is_held_by l thread)
  elim c.wait_queue [
    | [] ↦ ok (c, waiters, none)
    | waiter ∷ rest ↦
        let r = v (waiters waiter) in
        ok (record { wait_queue = rest }, store_waiter waiters waiter r.0, r.1)
  ]

abbrev pub and_woken : Option ℕ → List ℕ → List ℕ
and_woken none threads = threads
and_woken (some thread) threads = thread ∷ threads

-- The loop of Condition::Broadcast, with `fuel` rounds to go: also the threads made ready, in order.
unfoldable pub broadcast_from :
    ℕ → Condition → Waiters → Lock → ℕ → Result (Condition × Waiters × List ℕ)
unfolding signal
broadcast_from zero c waiters l thread = elim c.wait_queue [
  | [] ↦ ok (c, waiters, [])
  | waiter ∷ rest ↦ err out_of_fuel
]
broadcast_from (suc fuel) c waiters l thread = elim c.wait_queue [
  | [] ↦ ok (c, waiters, [])
  | waiter ∷ rest ↦ signal c waiters l thread >>= λ r.
      broadcast_from fuel r.0 r.1 l thread >>= λ more. ok (more.0, more.1, and_woken r.2 more.2)
]

-- Condition::Broadcast, a Signal for each semaphore of the queue.
unfoldable pub broadcast : Condition → Waiters → Lock → ℕ → Result (Condition × Waiters × List ℕ)
unfolding broadcast_from
broadcast c waiters l thread = broadcast_from (length c.wait_queue) c waiters l thread
