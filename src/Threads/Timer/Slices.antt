-- ===== src/Threads/Timer/Slices.antt =====
-- Time slices: the timer keeps interrupting, and asks for a switch whenever a thread runs.
use mathlib.Core.Path.{subst}
use nachos_project_2_os_subj.Base.{
  ℕ, ◌+◌, ◌^◌, ◌≤◌, ◌<◌, ◌≡◌, ◌∙◌, refl, ap, sym, arith, ◌==◌, Bool, true, false, not, Bool-cases,
  inl, inr, ok, err, bind_ok, >>=-eq-ok, ok-injective, ltb, slt, wild_access, guard, assert_failed,
  ◌||◌,
}
use nachos_project_2_os_subj.Threads.{PendingInterrupt, timer_int, System}
use nachos_project_2_os_subj.Threads.Interrupts.{schedule, yield_on_return, set_pending, insert}
use nachos_project_2_os_subj.Threads.Handlers.{Does, done, schedules, yields, changes, Obey}
use nachos_project_2_os_subj.Threads.Timer.{
  Timer, is_idle, alarm_call_back, delay, set_interrupt, timer_call_back, handlers,
}

alarm_at :
    (w : System Timer) (b : Bool)
    → is_idle w.interrupt.status ≡ b
    → alarm_call_back w ≡ (elim b [ true ↦ ok w | false ↦ yield_on_return w ])
unfolding alarm_call_back
alarm_at w b e = ap (λ c. elim c [ true ↦ ok w | false ↦ yield_on_return w ]) e

set_at :
    (this : ℕ) (w : System Timer) (b : Bool)
    → w.devices.disable ≡ b
    → set_interrupt this w ≡ (elim b [
      | true ↦ ok w
      | false ↦
          schedule this (delay w.devices).0 timer_int (record w { devices = (delay w.devices).1 })
    ])
unfolding set_interrupt
set_at this w b e =
    ap
      (λ c. elim c [
        | true ↦ ok w
        | false ↦
            schedule this (delay w.devices).0 timer_int (record w { devices = (delay w.devices).1 })
      ])
      e

alarm-Does : (w v : System Timer) → alarm_call_back w ≡ ok v → Does w v
alarm-Does w v e = elim (Bool-cases (is_idle w.interrupt.status)) [
  | inl idle ↦ subst (Does w) (ok-injective (sym (alarm_at w true idle) ∙ e)) done
  | inr busy ↦ yields done (sym (alarm_at w false busy) ∙ e)
]

set_interrupt-Does :
    (this : ℕ) (w u v : System Timer) → Does w u → set_interrupt this u ≡ ok v → Does w v
set_interrupt-Does this w u v d e = elim (Bool-cases u.devices.disable) [
  | inl off ↦ subst (Does w) (ok-injective (sym (set_at this u true off) ∙ e)) d
  | inr on ↦
      schedules this (delay u.devices).0 timer_int (changes (delay u.devices).1 d)
        (sym (set_at this u false on) ∙ e)
]

-- The timer keeps to what handlers may do.
pub handlers-Obey : (this : ℕ) → Obey (handlers this)
unfolding handlers timer_call_back
handlers-Obey this i w v e = called (i == this) e
  where
    called :
        (b : Bool)
        → (elim b [ true ↦ timer_call_back this w | false ↦ err wild_access ]) ≡ ok v
        → Does w v
    called true e =
        let (u, a, s) = >>=-eq-ok (alarm_call_back w) (set_interrupt this) e in
        set_interrupt-Does this w u v (alarm-Does w u a) s
    called false e = cc

pub delay_range : (t : Timer) → (0 < (delay t).0) × ((delay t).0 ≤ 200)
unfolding delay
delay_range t = elim (Bool-cases t.randomize) [
  | inl random ↦ rw random (omega arith, omega arith)
  | inr fixed ↦ rw fixed (omega arith, omega arith)
]

schedule_returns :
    (to_call from_now : ℕ) (w : System Timer)
    → 0 < from_now
    → w.stats.total_ticks + from_now < 2 ^ 31
    → schedule to_call from_now timer_int w
      ≡ ok (
          set_pending
            (insert
              (record {
                call_on_interrupt = to_call;
                when = w.stats.total_ticks + from_now;
                type = timer_int;
              })
              w.interrupt.pending)
            w)
unfolding schedule
schedule_returns to_call from_now w h k =
    let later : slt 0 from_now ≡ true = ground arith in
    let fits : ltb (w.stats.total_ticks + from_now) (2 ^ 31) ≡ true = ground arith in
    rw (later, fits) refl

-- The alarm notes a switch, but on an idle machine.
abbrev with_flag : Bool → System Timer → System Timer
with_flag b w = record w { interrupt = record w.interrupt { yield_on_return = b } }

abbrev noted : System Timer → System Timer
noted w = with_flag (w.interrupt.yield_on_return || not (is_idle w.interrupt.status)) w

or_not-true : (b c : Bool) → c ≡ true → b ≡ (b || not c)
or_not-true true c h = refl
or_not-true false c h = ap not (sym h)

or_not-false : (b c : Bool) → c ≡ false → true ≡ (b || not c)
or_not-false true c h = refl
or_not-false false c h = ap not (sym h)

alarm_returns :
    (w : System Timer) → w.interrupt.in_handler ≡ true → alarm_call_back w ≡ ok (noted w)
unfolding yield_on_return
alarm_returns w h = elim (Bool-cases (is_idle w.interrupt.status)) [
  | inl idle ↦ alarm_at w true idle ∙ ap (λ b. ok (with_flag b w)) (or_not-true _ _ idle)
  | inr busy ↦
      alarm_at w false busy
      ∙ bind_ok _ (ap (λ b. guard b assert_failed) h)
          (ap (λ b. ok (with_flag b w)) (or_not-false _ _ busy))
]

-- CallBack of a timer that is not disabled, in a handler and with room on the clock: it schedules
-- the timer once more, 1 to 200 ticks ahead, also on an idle machine, and asks for a switch of
-- threads where the machine is not idle.
pub timer_call_back_lem :
    (this : ℕ) (w : System Timer)
    → w.interrupt.in_handler ≡ true
    → w.devices.disable ≡ false
    → w.stats.total_ticks + 200 < 2 ^ 31
    → (v : System Timer) × (p : PendingInterrupt) × (timer_call_back this w ≡ ok v)
      × (v.interrupt.pending ≡ insert p w.interrupt.pending)
      × (p.call_on_interrupt ≡ this)
      × (w.stats.total_ticks < p.when)
      × (p.when ≤ w.stats.total_ticks + 200)
      × (v.interrupt.yield_on_return
          ≡ (w.interrupt.yield_on_return || not (is_idle w.interrupt.status)))
unfolding timer_call_back
timer_call_back_lem this w handling on room =
    let u = noted w in
    let d = delay u.devices in
    let soon = delay_range u.devices in
    let p : PendingInterrupt = record {
      call_on_interrupt = this;
      when = u.stats.total_ticks + d.0;
      type = timer_int;
    } in
    (
      _,
      p,
      bind_ok _ (alarm_returns w handling) (
          set_at this u false on
          ∙ schedule_returns this d.0 (record u { devices = d.1 }) soon.0 (omega arith)),
      refl,
      refl,
      omega arith,
      omega arith,
      refl,
    )
