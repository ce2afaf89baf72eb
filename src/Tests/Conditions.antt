-- ===== src/Tests/Conditions.antt =====
-- Thread 1 sleeps on a condition, thread 2 is about to, and thread 3, which holds the lock, joins them.
use nachos_project_2_os_subj.Base.{
  ℕ, ◌≡◌, refl, arith, true, if◌then◌else◌, ◌==◌, List, [], ◌∷◌, none, some, ok,
}
use nachos_project_2_os_subj.Synch.{semaphore, Lock, is_held_by, release}
use nachos_project_2_os_subj.Synch.Condition.{Waiters, Waiting, wait, resume}
use nachos_project_2_os_subj.Synch.Condition.Queues.{
  Waiter, Waits, nobody, somebody, empty_for, addresses, sleepers,
}
use nachos_project_2_os_subj.Synch.Condition.Wakes.{PassedOn, wait_wakes}
use nachos_project_2_os_subj.Lists.Chains.{member}

abbrev lock_of : ℕ → Lock
lock_of holder = record { semaphore = semaphore 0; lock_holder = some holder }

held : (holder : ℕ) → is_held_by (lock_of holder) holder ≡ true
unfolding is_held_by
held holder = ground arith

abbrev two_waiters : List Waiter
two_waiters = (100, some 1) ∷ (200, none) ∷ []

abbrev waiters : Waiters
waiters a = if a == 100 then empty_for (some 1) else semaphore 0

two_waiters-Waits : Waits waiters two_waiters
unfolding member addresses
two_waiters-Waits =
    somebody 100 (some 1) ((200, none) ∷ []) refl refl (somebody 200 none [] refl refl nobody)

wait_wakes_example :
    (x : Waiting) × (wait (record { wait_queue = 100 ∷ 200 ∷ [] }) waiters (lock_of 3) 300 3 ≡ ok x)
    × (release (lock_of 3) 3 ≡ ok (x.lock, x.woken))
    × PassedOn x.condition x.waiters (1 ∷ []) 300 3 (lock_of 5) 5
    × (slept : Waiters) × (resume x.waiters 300 x.lock 3 ≡ ok (slept, none))
    × PassedOn x.condition slept (1 ∷ 3 ∷ []) 300 3 (lock_of 5) 5
unfolding member addresses sleepers
wait_wakes_example =
    wait_wakes two_waiters waiters 300 3 5 (lock_of 3) (lock_of 5) two_waiters-Waits refl (held 3)
      (held 5)
