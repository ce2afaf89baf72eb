-- ===== src/Synch.antt =====
-- threads/synch.h and threads/synch.cc: semaphores and locks. Interrupts are off in P and V, so one
-- round of the loop of P is a step, and V is a step.
pub mod Protocol
pub mod Locks
pub mod Condition
use nachos_project_2_os_subj.Base.{
  ℕ, ◌+◌, ◌-◌, ◌%◌, ◌^◌, Bool, true, false, not, ◌||◌, List, [], ◌∷◌, ◌++◌, Option, none, some,
  Result, ok, ◌>>=◌, ◌>>◌, assert, u32, sub32, if◌then◌else◌, ◌==◌,
}

-- A thread is named by a number. `queue` holds the threads that sleep in P, the longest first.
pub record Semaphore : Type 0 where
  pub value : ℕ
  pub queue : List ℕ

-- Semaphore::Semaphore
abbrev pub semaphore : ℕ → Semaphore
semaphore initial_value = record { value = initial_value; queue = [] }

-- List<T>::IsInList
unfoldable pub is_in_list : ℕ → List ℕ → Bool
is_in_list item [] = false
is_in_list item (x ∷ xs) = item == x || is_in_list item xs

-- One round of the loop of P: the thread goes on, or sleeps and runs the next round when it wakes.
pub data Round : Type 0 where
  passed : Semaphore → Round
  asleep : Semaphore → Round

-- Append asserts that the thread is not in the queue already.
unfoldable pub p : Semaphore → ℕ → Result Round
unfolding is_in_list
p s thread =
    if s.value == 0
    then assert (not (is_in_list thread s.queue))
      >> ok (asleep (record s { queue = s.queue ++ thread ∷ [] }))
    else ok (passed (record s { value = sub32 s.value 1 }))

-- V also gives the thread that it makes ready.
unfoldable pub v : Semaphore → Semaphore × Option ℕ
v s = elim s.queue [
  | [] ↦ (record s { value = u32 (s.value + 1) }, none)
  | thread ∷ rest ↦ (record { value = u32 (s.value + 1); queue = rest }, some thread)
]

pub record Lock : Type 0 where
  pub semaphore : Semaphore
  pub lock_holder : Option ℕ

-- Lock::Lock
abbrev pub free_lock : Lock
free_lock = record { semaphore = semaphore 1; lock_holder = none }

-- Lock::Acquire, a round of its P at a time. The holder is noted once P is through.
pub data Acquire : Type 0 where
  acquired : Lock → Acquire
  waits : Lock → Acquire

unfoldable pub acquire : Lock → ℕ → Result Acquire
unfolding p
acquire l thread = do
  round ← p l.semaphore thread
  elim round [
    | passed s ↦ ok (acquired (record { semaphore = s; lock_holder = some thread }))
    | asleep s ↦ ok (waits (record l { semaphore = s }))
  ]

-- Lock::IsHeldByCurrentThread
unfoldable pub is_held_by : Lock → ℕ → Bool
is_held_by l thread = elim l.lock_holder [ none ↦ false | some holder ↦ holder == thread ]

unfoldable pub release : Lock → ℕ → Result (Lock × Option ℕ)
unfolding v is_held_by
release l thread = do
  assert (is_held_by l thread)
  let woken = v l.semaphore
  ok (record { semaphore = woken.0; lock_holder = none }, woken.1)
