-- ===== src/Tests/Processes.antt =====
-- The main process, and a process 3 that it has started.
use nachos_project_2_os_subj.Base.{
  ℕ, ◌≡◌, ◌⊎◌, refl, arith, true, false, [], ◌∷◌, Option, some, none, ok, err, wild_access,
  get_elem?, minus_one,
}
use nachos_project_2_os_subj.Synch.{semaphore}
use nachos_project_2_os_subj.STable.{same_string}
use nachos_project_2_os_subj.PTable.{Pcb, PTable}
use nachos_project_2_os_subj.PTable.Exec.{answered, exec_update, exec_v}
use nachos_project_2_os_subj.PTable.Exit.{
  joined, join_sleeps, join_wait, join_update, exited, exit_sleeps, exit_wait, exit_update,
}
use nachos_project_2_os_subj.PTable.Orders.{Family, join_then_exit, exit_then_join}
use nachos_project_2_os_subj.PTable.Slots.{Runs}
use nachos_project_2_os_subj.PTable.Refused.{join_refused, exit_orphan}
use nachos_project_2_os_subj.PTable.Started.{Started, IsCalm, exec_v-Started, exec_update-Started}

abbrev process : ℕ → Option ℕ → Pcb
process id parent = record {
  joinsem = semaphore 0;
  exitsem = semaphore 0;
  mutex = semaphore 1;
  exitcode = none;
  numwait = none;
  process_id = id;
  filename = 97 ∷ [];
  thread = some id;
  parent_id = parent;
}

abbrev processes : PTable
processes = record {
  pcb =
      some (process 0 (some minus_one))
      ∷ none
      ∷ none
      ∷ some (process 3 (some 0))
      ∷ none
      ∷ none
      ∷ none
      ∷ none
      ∷ none
      ∷ none
      ∷ [];
  bmsem = semaphore 1;
}

main_and_3 : Family processes 0 3
main_and_3 = record {
  a = process 0 (some minus_one);
  b = process 3 (some 0);
  parent_runs = refl;
  child_runs = refl;
  child_of = refl;
  apart = λ e. ground arith;
  not_main = λ e. ground arith;
  in_table = omega arith;
  mutex_free = refl;
  not_joined = refl;
  not_exited = refl;
}

processes-IsCalm : IsCalm processes 3
processes-IsCalm = record {
  a = process 3 (some 0);
  runs = refl;
  mutex_free = refl;
  main = λ e. cc;
  slots = refl;
  unlocked = refl;
}

join_then_exit_example :
    (t₁ t₂ t₃ t₄ : PTable) × (join_update processes 3 0 ≡ ok (join_sleeps t₁))
    × (exit_update t₁ 42 3 ≡ ok (some 0, exit_sleeps t₂))
    × (join_wait t₂ 3 0 ≡ ok (joined t₃ (some 42) (some 3)))
    × (exit_wait t₃ 3 ≡ ok (exited t₄))
    × (get_elem? t₄.pcb 3 ≡ some none)
join_then_exit_example = join_then_exit processes 0 3 42 main_and_3

exit_then_join_example :
    (t₁ t₂ t₃ : PTable) × (exit_update processes 42 3 ≡ ok (none, exit_sleeps t₁))
    × (join_update t₁ 3 0 ≡ ok (joined t₂ (some 42) (some 3)))
    × (exit_wait t₂ 3 ≡ ok (exited t₃))
    × (get_elem? t₃.pcb 3 ≡ some none)
exit_then_join_example = exit_then_join processes 0 3 42 main_and_3

exec_v-Started_example : Started processes 3 (exec_v processes (some (98 ∷ [])) 3)
exec_v-Started_example = exec_v-Started processes (98 ∷ []) 3 processes-IsCalm (omega arith)

exec_update-Started_example :
    ((same_string (98 ∷ []) (97 ∷ []) ≡ true)
      × (exec_update processes (some (98 ∷ [])) (97 ∷ []) 3
          ≡ ok (answered processes minus_one none none)))
    ⊎ ((same_string (98 ∷ []) (97 ∷ []) ≡ false)
        × Started processes 3 (exec_update processes (some (98 ∷ [])) (97 ∷ []) 3))
exec_update-Started_example =
    exec_update-Started processes (98 ∷ []) 3 processes-IsCalm (omega arith) (97 ∷ [])

join_refused_example :
    ((b : Pcb) × Runs processes 0 b × (b.parent_id ≡ some 3))
    ⊎ (join_update processes 0 3 ≡ ok (joined processes (some minus_one) none))
join_refused_example = join_refused processes 0 3 refl (omega arith)

-- Process 3 when its parent 1 has gone.
abbrev orphan : PTable
orphan = record {
  pcb =
      some (process 0 (some minus_one))
      ∷ none
      ∷ none
      ∷ some (process 3 (some 1))
      ∷ none
      ∷ none
      ∷ none
      ∷ none
      ∷ none
      ∷ none
      ∷ [];
  bmsem = semaphore 1;
}

exit_orphan_example : exit_update orphan 42 3 ≡ err wild_access
exit_orphan_example =
    exit_orphan orphan 42 3 1 (process 3 (some 1)) refl (λ e. ground arith) refl refl
