-- ===== src/Threads/Lifetime.antt =====
-- threads/thread.cc: the life of a thread from its constructor to its end.
use nachos_project_2_os_subj.Base.{
  ℕ, zero, suc, Bool, true, none, some, Result, ok, err, out_of_fuel, ◌>>=◌, ◌>>◌, deref, assert,
  ◌==◌,
}
use nachos_project_2_os_subj.Threads.{
  just_created, blocked, Thread, int_off, int_on, System, store_thread, assert_off, change_level,
  set_status,
}
use nachos_project_2_os_subj.Threads.Dispatch.{
  stack_fencepost, ready_to_run, find_next_to_run, run, check_to_be_destroyed,
}
use nachos_project_2_os_subj.Threads.Interrupts.{idle}
use nachos_project_2_os_subj.Threads.Clock.{Turn, set_level}

-- Thread::Thread; userRegisters, which the source leaves unset, are parameters.
unfoldable pub new_thread : (ℕ → ℕ) → Thread
new_thread user_registers = record {
  status = just_created;
  stack = none;
  initial = none;
  user_registers = user_registers;
  space = none;
}

module _ {D : Type 0} where
  -- Thread::StackAllocate: what SWITCH and ThreadRoot start from.
  unfoldable pub stack_allocate : ℕ → (func arg : ℕ) → System D → Result (System D)
  stack_allocate thread func arg w = deref (w.threads thread) >>= λ t. ok (record w {
    threads =
        store_thread w.threads thread
          (some (record t { stack = some stack_fencepost; initial = some (func, arg) }));
  })

module _ {D : Type 0} (call_back : ℕ → System D → Result (System D)) where
  -- Thread::Fork, of the thread `thread`.
  unfoldable pub fork : (fuel thread func arg : ℕ) → System D → Result (Turn D)
  unfolding stack_allocate ready_to_run set_level
  fork fuel thread func arg w = do
    w₁ ← stack_allocate thread func arg w
    let old_level = w₁.interrupt.level
    w₂ ← ready_to_run thread (change_level int_off w₁)
    set_level call_back fuel old_level w₂

  -- Thread::Begin; Enable is SetLevel(IntOn).
  unfoldable pub begin : (fuel this : ℕ) → System D → Result (Turn D)
  unfolding check_to_be_destroyed set_level
  begin fuel this w = do
    assert (this == w.current_thread)
    w₁ ← check_to_be_destroyed w
    set_level call_back fuel int_on w₁

  -- The loop of Sleep that waits for a thread to run, with `fuel` rounds to go.
  unfoldable pub wait_for_thread : ℕ → System D → Result (System D × ℕ)
  unfolding find_next_to_run idle
  wait_for_thread zero w = err out_of_fuel
  wait_for_thread (suc fuel) w = find_next_to_run w >>= λ r. elim r.1 [
    | some next ↦ ok (r.0, next)
    | none ↦ idle call_back r.0 >>= λ w₁. wait_for_thread fuel w₁
  ]

  -- Thread::Sleep of the thread `this`, up to SWITCH.
  unfoldable pub sleep : (fuel this : ℕ) → Bool → System D → Result (System D)
  unfolding set_status wait_for_thread run
  sleep fuel this finishing w = do
    assert (this == w.current_thread)
    assert_off w
    w₁ ← set_status this blocked w
    r ← wait_for_thread fuel w₁
    run r.1 finishing r.0

  -- Thread::Finish
  unfoldable pub finish : (fuel this : ℕ) → System D → Result (System D)
  unfolding sleep
  finish fuel this w = do
    let w₁ = change_level int_off w
    assert (this == w₁.current_thread)
    sleep fuel this true w₁
