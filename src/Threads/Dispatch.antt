-- ===== src/Threads/Dispatch.antt =====
-- threads/scheduler.cc, and the parts of threads/thread.cc that save and restore a thread: the list of
-- ready threads, and the switch from one thread to another in two halves, up to SWITCH and after it.
use nachos_project_2_os_subj.Base.{
  ℕ, zero, suc, Bool, true, false, not, [], ◌∷◌, ◌++◌, Option, none, some, Result, ok, ◌>>=◌, ◌>>◌,
  deref, assert, if◌then◌else◌, ◌==◌,
}
use nachos_project_2_os_subj.Synch.{is_in_list}
use nachos_project_2_os_subj.Machine.{Machine, num_total_regs, read_register, write_register}
use nachos_project_2_os_subj.AddrSpace.{AddrSpace, restore_state}
use nachos_project_2_os_subj.Threads.{
  running, ready, Thread, System, is_null, store_thread, assert_off, set_status,
}

abbrev pub stack_fencepost : ℕ
stack_fencepost = 233684719

-- The loop of SaveUserState, from register `i` on with `n` to go.
unfoldable pub save_registers : (n i : ℕ) → Machine → (ℕ → ℕ) → Result (ℕ → ℕ)
save_registers zero i m saved = ok saved
save_registers (suc n) i m saved =
    read_register m i >>= λ v. save_registers n (suc i) m (λ j. if i == j then v else saved j)

-- The loop of RestoreUserState.
unfoldable pub restore_registers : (n i : ℕ) → (ℕ → ℕ) → Machine → Result Machine
restore_registers zero i saved m = ok m
restore_registers (suc n) i saved m =
    write_register m i (saved i) >>= λ m₁. restore_registers n (suc i) saved m₁

-- Thread::CheckOverflow, where stacks grow downward.
abbrev pub check_overflow : Thread → Result (Unit {0})
check_overflow t = elim t.stack [ none ↦ ok tt | some word ↦ assert (word == stack_fencepost) ]

module _ {D : Type 0} where
  -- Scheduler::ReadyToRun; Append asserts that the thread is not in the list already.
  unfoldable pub ready_to_run : ℕ → System D → Result (System D)
  unfolding set_status is_in_list
  ready_to_run thread w = do
    assert_off w
    w₁ ← set_status thread ready w
    assert (not (is_in_list thread w₁.scheduler.ready_list))
    ok (record w₁ {
      scheduler = record w₁.scheduler { ready_list = w₁.scheduler.ready_list ++ thread ∷ [] };
    })

  -- Scheduler::FindNextToRun
  unfoldable pub find_next_to_run : System D → Result (System D × Option ℕ)
  find_next_to_run w = assert_off w >> (elim w.scheduler.ready_list [
    | [] ↦ ok (w, none)
    | thread ∷ rest ↦
        ok (record w { scheduler = record w.scheduler { ready_list = rest } }, some thread)
  ])

  -- Thread::SaveUserState
  unfoldable pub save_user_state : ℕ → System D → Result (System D)
  save_user_state thread w = do
    t ← deref (w.threads thread)
    m ← deref w.machine
    saved ← save_registers num_total_regs 0 m t.user_registers
    ok (record w {
      threads = store_thread w.threads thread (some (record t { user_registers = saved }));
    })

  -- Thread::RestoreUserState
  unfoldable pub restore_user_state : ℕ → System D → Result (System D)
  restore_user_state thread w = do
    t ← deref (w.threads thread)
    m ← deref w.machine
    m₁ ← restore_registers num_total_regs 0 t.user_registers m
    ok (record w { machine = some m₁ })

  -- `delete` of a thread: Thread::~Thread
  unfoldable pub delete_thread : ℕ → System D → Result (System D)
  delete_thread thread w = do
    assert (not (thread == w.current_thread))
    ok (record w { threads = store_thread w.threads thread none })

  -- Scheduler::CheckToBeDestroyed
  unfoldable pub check_to_be_destroyed : System D → Result (System D)
  unfolding delete_thread
  check_to_be_destroyed w = elim w.scheduler.to_be_destroyed [
    | none ↦ ok w
    | some thread ↦ delete_thread thread w >>= λ w₁.
        ok (record w₁ { scheduler = record w₁.scheduler { to_be_destroyed = none } })
  ]

  -- The part of Run that marks the current thread to be deleted.
  unfoldable pub mark_finishing : Bool → System D → Result (System D)
  mark_finishing false w = ok w
  mark_finishing true w = do
    assert (is_null w.scheduler.to_be_destroyed)
    ok (record w { scheduler = record w.scheduler { to_be_destroyed = some w.current_thread } })

  -- The part of Run that saves the state of a thread that runs a program; SaveState does nothing.
  unfoldable pub save_state : ℕ → Option AddrSpace → System D → Result (System D)
  unfolding save_user_state
  save_state thread none w = ok w
  save_state thread (some space) w = save_user_state thread w

  -- Scheduler::Run up to SWITCH, after which `next` runs.
  unfoldable pub run : ℕ → Bool → System D → Result (System D)
  unfolding mark_finishing save_state set_status
  run next finishing w = do
    let old = w.current_thread
    assert_off w
    w₁ ← mark_finishing finishing w
    t ← deref (w₁.threads old)
    w₂ ← save_state old t.space w₁
    check_overflow t
    set_status next running (record w₂ { current_thread = next })

  -- The part of Run that restores the state of a thread that runs a program.
  unfoldable pub load_state : ℕ → Option AddrSpace → System D → Result (System D)
  unfolding restore_user_state restore_state
  load_state thread none w = ok w
  load_state thread (some space) w = do
    w₁ ← restore_user_state thread w
    m ← deref w₁.machine
    ok (record w₁ { machine = some (restore_state space m) })

  -- Scheduler::Run from SWITCH on, in the thread `old` that runs again.
  unfoldable pub run_again : ℕ → System D → Result (System D)
  unfolding check_to_be_destroyed load_state
  run_again old w = do
    assert_off w
    w₁ ← check_to_be_destroyed w
    t ← deref (w₁.threads old)
    load_state old t.space w₁
