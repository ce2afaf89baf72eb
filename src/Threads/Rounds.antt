-- ===== src/Threads/Rounds.antt =====
-- Which routines of the scheduler and the clock come back, and what of the clock they leave.
use mathlib.Core.Path.{subst}
use nachos_project_2_os_subj.Base.{
  ℕ, ◌+◌, ◌^◌, ◌≤◌, ◌≡◌, refl, sym, arith, ◌==◌, Bool, true, false, inl, inr, List, [], ◌∷◌, Option,
  none, some, Result, ok, ◌>>=◌, assert, Bool-cases, ltb,
}
use nachos_project_2_os_subj.Threads.Fuel.{
  Ends, ends_ok, ends_err, Ends-bind, Ends-assert, Ends-deref, Any, assert-Ends,
}
use nachos_project_2_os_subj.AddrSpace.{AddrSpace}
use nachos_project_2_os_subj.Machine.{num_total_regs}
use nachos_project_2_os_subj.Threads.{
  PendingInterrupt, ThreadStatus, running, ready, Thread, IntStatus, int_off, MachineStatus,
  system_mode, user_mode, idle_mode, System, change_level, set_status,
}
use nachos_project_2_os_subj.Threads.Dispatch.{
  ready_to_run, find_next_to_run, run, mark_finishing, save_state, save_user_state, check_overflow,
  stack_fencepost,
}
use nachos_project_2_os_subj.Threads.Interrupts.{int_sum}
use nachos_project_2_os_subj.Threads.Clock.{
  Turn, goes, switched, on_return, is_enabling, set_level_by, yield_by, advance_in, advance,
}
use nachos_project_2_os_subj.Threads.Switch.{save_registers_lem}

check_overflow-Ends : (t : Thread) → Ends Any (check_overflow t)
check_overflow-Ends t = sound t.stack
  where
    sound :
        (o : Option ℕ)
        → Ends {0} {A = Unit {0}} Any
            (elim o [ none ↦ ok tt | some word ↦ assert (word == stack_fencepost) ])
    sound none = ends_ok tt tt
    sound (some word) = assert-Ends (word == stack_fencepost)

pub int_sum-Ends : (a b : ℕ) → Ends (λ c. c ≡ a + b) (int_sum a b)
int_sum-Ends a b = elim (Bool-cases (ltb (a + b) (2 ^ 31))) [
  | inl fits ↦ rw fits (ends_ok (a + b) refl)
  | inr over ↦ rw over (ends_err _ (λ q. cc))
]

module _ {D : Type 0} where
  set_status-Ends : (a : ℕ) (st : ThreadStatus) (w : System D) → Ends Any (set_status a st w)
  unfolding set_status
  set_status-Ends a st w = Ends-deref (w.threads a) _ (λ t. ends_ok _ tt)

  ready_to_run-Ends : (a : ℕ) (w : System D) → Ends Any (ready_to_run a w)
  unfolding ready_to_run
  ready_to_run-Ends a w =
      Ends-assert _ _
        (Ends-bind (set_status-Ends a ready w) (λ v _. Ends-assert _ _ (ends_ok _ tt)))

  save_state-Ends :
      (a : ℕ) (space : Option AddrSpace) (w : System D) → Ends Any (save_state a space w)
  unfolding save_state save_user_state
  save_state-Ends a none w = ends_ok _ tt
  save_state-Ends a (some space) w = Ends-deref (w.threads a) _ (λ t. Ends-deref w.machine _ (λ m.
      let (saved, e, _) = save_registers_lem num_total_regs 0 m t.user_registers (omega arith) in
      Ends-bind {Q = Any} (subst (Ends Any) (sym e) (ends_ok saved tt)) (λ s _. ends_ok _ tt)))

  run-Ends : (next : ℕ) (w : System D) → Ends Any (run next false w)
  unfolding run mark_finishing
  run-Ends next w = Ends-assert _ _ (
      Ends-deref (w.threads w.current_thread) _ (λ t.
        Ends-bind (save_state-Ends w.current_thread t.space w) (λ w₂ _.
          Ends-bind (check_overflow-Ends t)
            (λ _ _. set_status-Ends next running (record w₂ { current_thread = next })))))

  -- A condition on what the next tick goes by: the pending interrupts, yieldOnReturn, the time and
  -- the devices.
  module _ (Fit : List PendingInterrupt → Bool → ℕ → D → Type 0) where
    abbrev pub Fits : System D → Type 0
    Fits w = Fit w.interrupt.pending w.interrupt.yield_on_return w.stats.total_ticks w.devices

    find_next-Ends : (w : System D) → Ends (λ r. Fits w → Fits r.0) (find_next_to_run w)
    unfolding find_next_to_run
    find_next-Ends w = Ends-assert _ _ (from w.scheduler.ready_list)
      where
        from :
            (l : List ℕ)
            → Ends
                (λ (r : System D × Option ℕ). Fits w → Fits r.0)
                (elim l [
                  | [] ↦ ok (w, none)
                  | thread ∷ rest ↦ ok (
                    record w { scheduler = record w.scheduler { ready_list = rest } },
                    some thread,
                  )
                ])
        from [] = ends_ok _ (λ h. h)
        from (a ∷ l) = ends_ok _ (λ h. h)

    -- The tick that they come to ends where the condition holds.
    module _ (tick : System D → Result (Turn D))
        (tick_ends : (w : System D) → Fits w → Ends Any (tick w)) where
      set_level_by-Ends :
          (now : IntStatus) (w : System D) → Fits w → Ends Any (set_level_by tick now w)
      unfolding set_level_by
      set_level_by-Ends now w h = Ends-assert _ _ (from (is_enabling now w.interrupt.level))
        where
          from :
              (b : Bool)
              → Ends Any (elim b [
                | true ↦ tick (change_level now w)
                | false ↦ ok (goes (change_level now w))
              ])
          from true = tick_ends (change_level now w) h
          from false = ends_ok _ tt

      pub yield_by-Ends : (this : ℕ) (w : System D) → Fits w → Ends Any (yield_by tick this w)
      unfolding yield_by
      yield_by-Ends this w h =
          Ends-assert _ _
            (Ends-bind (find_next-Ends (change_level int_off w)) (λ r kept. from r.1 r.0 (kept h)))
        where
          from :
              (o : Option ℕ) (v : System D)
              → Fits v
              → Ends Any (elim o [
                | none ↦ set_level_by tick w.interrupt.level v
                | some next ↦
                    ready_to_run this v >>= λ w₁. run next false w₁ >>= λ w₂. ok (switched w₂)
              ])
          from none v k = set_level_by-Ends w.interrupt.level v k
          from (some next) v k =
              Ends-bind (ready_to_run-Ends this v)
                (λ w₁ _. Ends-bind (run-Ends next w₁) (λ w₂ _. ends_ok _ tt))

  -- The clock has gone on by no more than ten.
  abbrev pub Moved : System D → System D → Type 0
  Moved w v =
      (v.interrupt ≡ w.interrupt)
      × (v.devices ≡ w.devices)
      × (v.stats.total_ticks ≤ w.stats.total_ticks + 10)

  advance_in-Ends : (mode : MachineStatus) (w : System D) → Ends (Moved w) (advance_in mode w)
  unfolding advance_in
  advance_in-Ends system_mode w =
      Ends-bind (int_sum-Ends w.stats.total_ticks 10)
        (λ total h. ends_ok _ (refl, refl, omega (arith, h)))
  advance_in-Ends user_mode w =
      Ends-bind (int_sum-Ends w.stats.total_ticks 1)
        (λ total h. ends_ok _ (refl, refl, omega (arith, h)))
  advance_in-Ends idle_mode w =
      Ends-bind (int_sum-Ends w.stats.total_ticks 1)
        (λ total h. ends_ok _ (refl, refl, omega (arith, h)))

  pub advance-Ends : (w : System D) → Ends (Moved w) (advance w)
  unfolding advance
  advance-Ends w = advance_in-Ends w.interrupt.status w

  pub Ends-on_return :
      (r : Result (Turn D)) (rest : System D → Result (Turn D))
      → Ends Any r
      → ((w : System D) → Ends Any (rest w))
      → Ends Any (on_return r rest)
  Ends-on_return _ rest (ends_ok (goes w) h) k = k w
  Ends-on_return _ rest (ends_ok (switched w) h) k = ends_ok _ tt
  Ends-on_return _ rest (ends_err e h) k = ends_err e h
