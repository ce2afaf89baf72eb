-- ===== src/Threads/Timer.antt =====
-- machine/timer.h, machine/timer.cc and threads/alarm.cc: the timer device, whose interrupts ask for a
-- switch of threads.
pub mod Slices
pub mod Nested
use nachos_project_2_os_subj.Base.{
  ℕ, zero, suc, ◌+◌, ◌*◌, ◌%◌, Bool, true, false, Result, ok, err, wild_access, ◌>>=◌, ◌==◌,
}
use nachos_project_2_os_subj.Threads.{
  IntType, timer_int, MachineStatus, idle_mode, system_mode, user_mode, System,
}
use nachos_project_2_os_subj.Threads.Interrupts.{schedule, yield_on_return}

abbrev pub timer_ticks : ℕ
timer_ticks = 100

-- Timer. `random` gives the numbers of RandomNumber, which is the host's, and `drawn` counts those
-- that were used. The handler that it calls is the alarm's.
pub record Timer : Type 0 where
  pub randomize : Bool
  pub disable : Bool
  pub random : ℕ → ℕ
  pub drawn : ℕ

abbrev pub is_idle : MachineStatus → Bool
is_idle idle_mode = true
is_idle _ = false

-- Alarm::CallBack, called by the timer.
unfoldable pub alarm_call_back : System Timer → Result (System Timer)
unfolding yield_on_return
alarm_call_back w = elim (is_idle w.interrupt.status) [ true ↦ ok w | false ↦ yield_on_return w ]

-- The delay to the next interrupt, and the timer after it was drawn.
unfoldable pub delay : Timer → ℕ × Timer
delay t = elim t.randomize [
  | false ↦ (timer_ticks, t)
  | true ↦ (1 + t.random t.drawn % (timer_ticks * 2), record t { drawn = t.drawn + 1 })
]

-- A machine whose devices are the timer, at the address `this`.
module _ (this : ℕ) where
  -- Timer::SetInterrupt
  unfoldable pub set_interrupt : System Timer → Result (System Timer)
  unfolding delay schedule
  set_interrupt w = elim w.devices.disable [
    | true ↦ ok w
    | false ↦ let d = delay w.devices in schedule this d.0 timer_int (record w { devices = d.1 })
  ]

  -- Timer::CallBack
  unfoldable pub timer_call_back : System Timer → Result (System Timer)
  unfolding alarm_call_back set_interrupt
  timer_call_back w = alarm_call_back w >>= λ w₁. set_interrupt w₁

  -- The call of an object at an address, where only the timer lies.
  unfoldable pub handlers : ℕ → System Timer → Result (System Timer)
  unfolding timer_call_back
  handlers i w = elim (i == this) [ true ↦ timer_call_back w | false ↦ err wild_access ]

  -- Timer::Timer; the source's Alarm::Alarm makes its timer so.
  unfoldable pub new_timer : Bool → (ℕ → ℕ) → System Timer → Result (System Timer)
  unfolding set_interrupt
  new_timer do_random random w = set_interrupt (record w {
    devices = record { randomize = do_random; disable = false; random = random; drawn = 0 };
  })
