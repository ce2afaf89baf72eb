-- ===== src/Tests/Switching.antt =====
-- Thread 1 runs a program and thread 2 is ready. The timer lies at the address 9.
use nachos_project_2_os_subj.Base.{
  ℕ, ◌+◌, ◌≤◌, ◌<◌, ◌≡◌, ◌⊎◌, refl, ap, ltb, sym, arith, Bool-cases, inl, inr, ◌==◌, true, false,
  List, [], ◌∷◌, none, some, ok, err, halted, if◌then◌else◌,
}
use nachos_project_2_os_subj.Lists.Chains.{some-injective}
use nachos_project_2_os_subj.Lists.Reps.{none-some}
use nachos_project_2_os_subj.Machine.{Machine, num_total_regs, read_register}
use nachos_project_2_os_subj.AddrSpace.{AddrSpace}
use nachos_project_2_os_subj.Synch.{is_in_list}
use nachos_project_2_os_subj.Threads.{
  running, ready, Thread, PendingInterrupt, timer_int, idle_mode, System, new_interrupt,
  new_statistics, new_scheduler,
}
use nachos_project_2_os_subj.Threads.Dispatch.{save_registers, run, run_again, stack_fencepost}
use nachos_project_2_os_subj.Threads.Interrupts.{insert, check_if_due, idle}
use nachos_project_2_os_subj.Threads.Clock.{Turn, set_machine_status, one_tick}
use nachos_project_2_os_subj.Threads.Order.{due, Inserted, insert_lem}
use nachos_project_2_os_subj.Threads.Firing.{Calls}
use nachos_project_2_os_subj.Threads.Due.{check_if_due_fires, idle_fires, IdlesAt, forwarded}
use nachos_project_2_os_subj.Threads.Effects.{statuses}
use nachos_project_2_os_subj.Threads.Consistent.{IsConsistent}
use nachos_project_2_os_subj.Threads.Consistent.Steps.{start, next, ticks, left, Reach-IsConsistent}
use nachos_project_2_os_subj.Threads.Switch.{run_again-run}
use nachos_project_2_os_subj.Threads.Timer.{Timer, timer_call_back, handlers}
use nachos_project_2_os_subj.Threads.Timer.Slices.{handlers-Obey, timer_call_back_lem}

abbrev timer : Timer
timer = record { randomize = false; disable = false; random = λ _. 0; drawn = 0 }

abbrev at_tick : ℕ → PendingInterrupt
at_tick n = record { call_on_interrupt = 9; when = n; type = timer_int }

abbrev space_1 : AddrSpace
space_1 = record { page_table = none; num_pages = 3 }

abbrev thread_1 : Thread
thread_1 = record {
  status = running;
  stack = none;
  initial = none;
  user_registers = λ _. 0;
  space = some space_1;
}

abbrev thread_2 : Thread
thread_2 = record {
  status = ready;
  stack = some stack_fencepost;
  initial = some (70, 5);
  user_registers = λ _. 0;
  space = none;
}

abbrev machine_1 : Machine
machine_1 = record {
  registers = λ r. r + 7;
  main_memory = λ _. 0;
  tlb = none;
  page_table = none;
  page_table_size = 0;
}

abbrev sample : System Timer
sample = record {
  current_thread = 1;
  threads = λ a. if a == 1 then some thread_1 else if a == 2 then some thread_2 else none;
  scheduler = record new_scheduler { ready_list = 2 ∷ [] };
  interrupt = record new_interrupt { pending = at_tick 100 ∷ [] };
  stats = record new_statistics { total_ticks = 99 };
  machine = some machine_1;
  devices = timer;
}

insert_lem_example : Inserted (at_tick 10) (at_tick 10 ∷ at_tick 20 ∷ [])
insert_lem_example =
    insert_lem (at_tick 10) (at_tick 10 ∷ at_tick 20 ∷ []) ((omega arith, tt), (tt, tt))

check_if_due_fires_example :
    ((due 99 (at_tick 100 ∷ []) ≡ [])
      × (check_if_due (handlers 9) false sample ≡ ok (sample, false)))
    ⊎ ((x : PendingInterrupt) × (xs : List PendingInterrupt) × (due 99 (at_tick 100 ∷ []) ≡ x ∷ xs)
        × Calls (handlers 9) (x ∷ xs) sample (check_if_due (handlers 9) false sample))
check_if_due_fires_example = check_if_due_fires (handlers 9) sample (handlers-Obey 9) refl

idle_fires_example :
    ((at_tick 100 ∷ [] ≡ []) × (idle (handlers 9) sample ≡ err halted))
    ⊎ ((p : PendingInterrupt) × (rest : List PendingInterrupt) × (at_tick 100 ∷ [] ≡ p ∷ rest)
        × IdlesAt
            (handlers 9)
            p
            sample
            (forwarded (handlers 9) p (set_machine_status idle_mode sample)))
idle_fires_example = idle_fires (handlers 9) sample (handlers-Obey 9) refl

sample-IsConsistent : IsConsistent sample
unfolding statuses is_in_list
sample-IsConsistent = record {
  listed = λ a h. let two : a ≡ 2 = ground arith in ap (statuses sample) two;
  counted = λ a h. elim (Bool-cases (a == 1)) [
    | inl one ↦ let q : a ≡ 1 = ground arith in let z = ap (statuses sample) q in cc
    | inr other ↦ elim (Bool-cases (a == 2)) [
      | inl two ↦ rw two refl
      | inr neither ↦ let none_there : none ≡ some ready = rw (other, neither) at h in cc
    ]
  ];
  alone = λ a h. elim (Bool-cases (a == 1)) [
    | inl one ↦ let q : 1 ≡ a = ground arith in ap some q
    | inr other ↦ elim (Bool-cases (a == 2)) [
      | inl two ↦ let q : a ≡ 2 = ground arith in let z = ap (statuses sample) q in cc
      | inr neither ↦ let none_there : none ≡ some running = rw (other, neither) at h in cc
    ]
  ];
  runs_running = λ a h. sym (ap (statuses sample) (some-injective h));
  ended = λ a h. absurd (none-some h);
  distinct = (refl, tt);
}

-- A tick of the program: the timer is due, and thread 2 gets the CPU.
turn_1 : (t : Turn Timer) × (one_tick (handlers 9) 5 sample ≡ ok t)
unfolding one_tick handlers save_registers read_register
turn_1 = (_, refl)

Reach-IsConsistent_example : IsConsistent (left turn_1.0)
Reach-IsConsistent_example =
    Reach-IsConsistent (handlers 9) (handlers-Obey 9) sample (left turn_1.0) sample-IsConsistent
      (next start (ticks 5 turn_1.1))

preempted : (left turn_1.0).current_thread ≡ 2
unfolding turn_1 one_tick handlers save_registers read_register
preempted = refl

-- What the switch saves of the registers.
abbrev saved_1 : ℕ → ℕ
saved_1 j = if ltb j num_total_regs then j + 7 else 0

-- Thread 2 runs, and the machine has other registers when thread 1 runs again.
abbrev later : System Timer
later = record sample {
  current_thread = 1;
  threads = λ a. if a == 1 then some (record thread_1 { user_registers = saved_1 }) else none;
  machine = some (record machine_1 { registers = λ _. 0 });
}

run_again-run_example :
    (v : System Timer) × (run 2 false sample ≡ ok v)
    × (v.current_thread ≡ 2)
    × ((t₁ t₂ : Thread)
        → v.threads 1 ≡ some t₁
        → later.threads 1 ≡ some t₂
        → t₂.user_registers ≡ t₁.user_registers
        → t₂.space ≡ t₁.space
        → (x : System Timer) × (m₂ : Machine) × (run_again 1 later ≡ ok x)
          × (x.machine ≡ some m₂)
          × ((j : ℕ) → j < num_total_regs → m₂.registers j ≡ j + 7)
          × (m₂.page_table ≡ none)
          × (m₂.page_table_size ≡ 3)
          × (m₂.main_memory ≡ λ _. 0))
run_again-run_example =
    run_again-run 2 sample later thread_1 thread_2 space_1 machine_1
      (record machine_1 { registers = λ _. 0 }) refl refl refl refl refl refl refl refl refl refl

abbrev handling : System Timer
handling = record sample { interrupt = record sample.interrupt { in_handler = true } }

timer_call_back_lem_example :
    (v : System Timer) × (p : PendingInterrupt) × (timer_call_back 9 handling ≡ ok v)
    × (v.interrupt.pending ≡ insert p (at_tick 100 ∷ []))
    × (p.call_on_interrupt ≡ 9)
    × (99 < p.when)
    × (p.when ≤ 99 + 200)
    × (v.interrupt.yield_on_return ≡ true)
timer_call_back_lem_example = timer_call_back_lem 9 handling refl refl (omega arith)
