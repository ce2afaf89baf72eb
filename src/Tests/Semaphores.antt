-- ===== src/Tests/Semaphores.antt =====
-- Three calls on a semaphore of value 1, and a table of two named semaphores.
use nachos_project_2_os_subj.Base.{
  ℕ, ◌≡◌, ◌≢◌, ◌<◌, ◌⊎◌, inr, refl, arith, true, false, ◌++◌, ◌∷◌, [], some, none, ok, err,
  assert_failed, minus_one, sub32, get_elem?,
}
use nachos_project_2_os_subj.Synch.{Semaphore, semaphore, p, v, passed, asleep, is_in_list}
use nachos_project_2_os_subj.Synch.{Lock, acquire, acquired, waits, release}
use nachos_project_2_os_subj.Synch.Locks.{IsLock, acquire_cases, release_cases}
use nachos_project_2_os_subj.Synch.Protocol.{
  System, Reach, start, next, call_p, call_v, Inv, Reach-Inv, mutual_exclusion,
}
use nachos_project_2_os_subj.STable.{STable, create, wait, signal, returned, sleeps, max_semaphore}
use nachos_project_2_os_subj.STable.Names.{lookup}
use nachos_project_2_os_subj.STable.Calls.{lookup-create, lookup-signal, lookup-wait, Renewed}

-- Thread 7 goes in, thread 8 sleeps, and thread 7 leaves and wakes thread 8.
abbrev handed_over : System
handed_over = record { sem = record { value = 1; queue = [] }; woken = 8 ∷ []; inside = [] }

handed_over-Reach : Reach 1 handed_over
unfolding p v is_in_list
handed_over-Reach =
    next
      (next (next start (call_p 7 {r = passed (record { value = 0; queue = [] })} refl))
        (call_p 8 {r = asleep (record { value = 0; queue = 8 ∷ [] })} refl))
      (call_v [] [] 7 refl)

Reach-Inv_example : Inv 1 handed_over
Reach-Inv_example = Reach-Inv (omega arith) handed_over-Reach

mutual_exclusion_example : handed_over.inside ≢ 7 ∷ 8 ∷ []
mutual_exclusion_example = mutual_exclusion handed_over-Reach 7 8 []

-- The names "a" and "b", the second with a sleeping thread.
abbrev two_sems : STable
two_sems =
    some (record { name = 97 ∷ []; sem = semaphore 2 })
    ∷ none
    ∷ some (record { name = 98 ∷ []; sem = record { value = 0; queue = 5 ∷ [] } })
    ∷ none
    ∷ none
    ∷ none
    ∷ none
    ∷ none
    ∷ none
    ∷ none
    ∷ []

lookup-create_example :
    ((lookup two_sems (99 ∷ []) ≢ none) × (create two_sems (99 ∷ []) 1 ≡ ok (two_sems, minus_one)))
    ⊎ ((((k : ℕ) → k < max_semaphore → get_elem? two_sems k ≢ some none)
          × (create two_sems (99 ∷ []) 1 ≡ ok (two_sems, minus_one)))
        ⊎ ((lookup two_sems (99 ∷ []) ≡ none)
            × (t' : STable) × (create two_sems (99 ∷ []) 1 ≡ ok (t', 0))
            × Renewed two_sems (99 ∷ []) (semaphore 1) t'))
lookup-create_example = lookup-create two_sems (99 ∷ []) 1 refl (omega arith)

lookup-signal_example :
    ((lookup two_sems (98 ∷ []) ≡ none)
      × (signal two_sems (98 ∷ []) ≡ ok (two_sems, minus_one, none)))
    ⊎ ((s : Semaphore) × (lookup two_sems (98 ∷ []) ≡ some s)
        × (t' : STable) × (signal two_sems (98 ∷ []) ≡ ok (t', 0, (v s).1))
        × Renewed two_sems (98 ∷ []) (v s).0 t')
lookup-signal_example = lookup-signal two_sems (98 ∷ [])

lookup-wait_example :
    ((lookup two_sems (97 ∷ []) ≡ none)
      × (wait two_sems (97 ∷ []) 4 ≡ ok (returned two_sems minus_one)))
    ⊎ ((s : Semaphore) × (lookup two_sems (97 ∷ []) ≡ some s)
        × (((s.value ≡ 0)
              × (is_in_list 4 s.queue ≡ true)
              × (wait two_sems (97 ∷ []) 4 ≡ err assert_failed))
            ⊎ (((s.value ≡ 0)
                  × (t' : STable) × (wait two_sems (97 ∷ []) 4 ≡ ok (sleeps t'))
                  × Renewed two_sems (97 ∷ []) (record s { queue = s.queue ++ 4 ∷ [] }) t')
                ⊎ ((s.value ≢ 0)
                    × (t' : STable) × (wait two_sems (97 ∷ []) 4 ≡ ok (returned t' 0))
                    × Renewed two_sems (97 ∷ []) (record s { value = sub32 s.value 1 }) t'))))
lookup-wait_example = lookup-wait two_sems (97 ∷ []) 4

-- A lock that thread 7 holds.
abbrev held_lock : Lock
held_lock = record { semaphore = semaphore 0; lock_holder = some 7 }

held_lock-IsLock : IsLock held_lock
held_lock-IsLock = inr (7, refl, refl)

not_queued : is_in_list 8 held_lock.semaphore.queue ≡ false
unfolding is_in_list
not_queued = refl

acquire_cases_example :
    ((held_lock.lock_holder ≡ none)
      × (l' : Lock) × (acquire held_lock 8 ≡ ok (acquired l'))
      × (l'.lock_holder ≡ some 8)
      × IsLock l')
    ⊎ ((holder : ℕ) × (held_lock.lock_holder ≡ some holder)
        × (l' : Lock) × (acquire held_lock 8 ≡ ok (waits l'))
        × (l'.semaphore.queue ≡ held_lock.semaphore.queue ++ 8 ∷ [])
        × (l'.lock_holder ≡ some holder)
        × IsLock l')
acquire_cases_example = acquire_cases held_lock 8 held_lock-IsLock not_queued

release_cases_example :
    ((held_lock.lock_holder ≡ some 7)
      × (l' : Lock) × (release held_lock 7 ≡ ok (l', (v held_lock.semaphore).1))
      × (l'.lock_holder ≡ none)
      × IsLock l')
    ⊎ ((held_lock.lock_holder ≢ some 7) × (release held_lock 7 ≡ err assert_failed))
release_cases_example = release_cases held_lock 7 held_lock-IsLock
