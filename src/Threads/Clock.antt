-- ===== src/Threads/Clock.antt =====
-- Interrupt::OneTick and SetLevel of machine/interrupt.cc, with Thread::Yield of threads/thread.cc,
-- which call each other.
use nachos_project_2_os_subj.Base.{
  ℕ, zero, suc, ◌+◌, Bool, true, false, not, ◌||◌, none, some, Result, ok, err, out_of_fuel, ◌>>=◌,
  ◌>>◌, assert, ◌==◌,
}
use nachos_project_2_os_subj.Threads.{
  IntStatus, int_off, int_on, MachineStatus, system_mode, System, is_off, change_level,
}
use nachos_project_2_os_subj.Threads.Dispatch.{ready_to_run, find_next_to_run, run, run_again}
use nachos_project_2_os_subj.Threads.Interrupts.{int_sum, check_if_due}

abbrev pub system_tick : ℕ
system_tick = 10

abbrev pub user_tick : ℕ
user_tick = 1

-- A routine comes to its end, or to a SWITCH: the thread that called it waits to run again.
pub data Turn (D : Type 0) : Type 0 where
  goes : System D → Turn D
  switched : System D → Turn D

-- The test in SetLevel whether interrupts come to be enabled.
abbrev pub is_enabling : IntStatus → IntStatus → Bool
is_enabling int_on int_off = true
is_enabling _ _ = false

module _ {D : Type 0} where
  -- The rest of a routine, where the thread goes on.
  abbrev pub on_return : Result (Turn D) → (System D → Result (Turn D)) → Result (Turn D)
  on_return r rest = r >>= λ t. elim t [ goes w ↦ rest w | switched w ↦ ok (switched w) ]

  abbrev pub set_machine_status : MachineStatus → System D → System D
  set_machine_status status w = record w { interrupt = record w.interrupt { status = status } }

  -- Interrupt::SetLevel, by what OneTick does.
  unfoldable pub set_level_by :
      (System D → Result (Turn D)) → IntStatus → System D → Result (Turn D)
  set_level_by tick now w =
      assert (is_off now || not w.interrupt.in_handler)
      >> (elim (is_enabling now w.interrupt.level) [
        | true ↦ tick (change_level now w)
        | false ↦ ok (goes (change_level now w))
      ])

  -- Thread::Yield of the thread `this`, by what OneTick does. SetLevel(IntOff) never ticks.
  unfoldable pub yield_by : (System D → Result (Turn D)) → ℕ → System D → Result (Turn D)
  unfolding ready_to_run find_next_to_run run set_level_by
  yield_by tick this w =
      let old_level = w.interrupt.level in
      assert (this == w.current_thread)
      >> (find_next_to_run (change_level int_off w) >>= λ r. elim r.1 [
        | none ↦ set_level_by tick old_level r.0
        | some next ↦ ready_to_run this r.0 >>= λ w₁. run next false w₁ >>= λ w₂. ok (switched w₂)
      ])

  -- The clock of the statistics goes on, by the mode of the machine.
  unfoldable pub advance_in : MachineStatus → System D → Result (System D)
  advance_in system_mode w = int_sum w.stats.total_ticks system_tick >>= λ total. ok (record w {
    stats = record w.stats {
      total_ticks = total;
      system_ticks = w.stats.system_ticks + system_tick;
    };
  })
  advance_in _ w = int_sum w.stats.total_ticks user_tick >>= λ total. ok (record w {
    stats = record w.stats { total_ticks = total; user_ticks = w.stats.user_ticks + user_tick };
  })

  -- The start of OneTick.
  unfoldable pub advance : System D → Result (System D)
  unfolding advance_in
  advance w = advance_in w.interrupt.status w

  module _ (call_back : ℕ → System D → Result (System D)) where
    -- The interrupts checked at a tick, with interrupts disabled for the handlers.
    unfoldable pub check_at_tick : System D → Result (System D)
    unfolding check_if_due
    check_at_tick w =
        check_if_due call_back false (change_level int_off w) >>= λ r. ok (change_level int_on r.0)

    -- Interrupt::OneTick, with `fuel` ticks that it may come to inside of each other.
    unfoldable pub one_tick : ℕ → System D → Result (Turn D)
    unfolding advance check_at_tick yield_by
    one_tick zero w = err out_of_fuel
    one_tick (suc fuel) w =
        let old_status = w.interrupt.status in
        advance w >>= λ w₁. check_at_tick w₁ >>= λ w₂. elim w₂.interrupt.yield_on_return [
          | false ↦ ok (goes w₂)
          | true ↦
              on_return
                (yield_by (one_tick fuel) w₂.current_thread (record w₂ {
                  interrupt = record w₂.interrupt { yield_on_return = false; status = system_mode };
                }))
                (λ w₃. ok (goes (set_machine_status old_status w₃)))
        ]

    -- Interrupt::SetLevel; its answer is the level before.
    unfoldable pub set_level : ℕ → IntStatus → System D → Result (Turn D)
    unfolding one_tick set_level_by
    set_level fuel = set_level_by (one_tick fuel)

    -- Thread::Yield
    unfoldable pub yield : ℕ → ℕ → System D → Result (Turn D)
    unfolding one_tick yield_by
    yield fuel = yield_by (one_tick fuel)

    -- Thread::Yield from SWITCH on, in the thread `this` that runs again.
    unfoldable pub yield_again : ℕ → ℕ → IntStatus → System D → Result (Turn D)
    unfolding run_again set_level
    yield_again fuel this old_level w = run_again this w >>= λ w₁. set_level fuel old_level w₁
