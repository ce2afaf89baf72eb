-- ===== src/Threads/Consistent/Ticks.antt =====
-- The scheduler stays consistent through ticks of the clock, changes of the interrupt level and Yield.
use mathlib.Core.Path.{subst}
use nachos_project_2_os_subj.Base.{
  ℕ, zero, suc, ◌≡◌, ◌∙◌, refl, sym, false, ◌==◌, ◌⊎◌, inl, inr, List, [], ◌∷◌, ◌++◌, Option, arith,
  none, some, Result, ok, assert, ◌>>=◌,
}
use nachos_project_2_os_subj.Threads.{
  running, ready, IntStatus, int_off, int_on, MachineStatus, system_mode, user_mode, idle_mode,
  change_level, System,
}
use nachos_project_2_os_subj.UserMemory.Post.{
  Post, comes, fails, Post-of, Post-bind, Post-any, Post-cond, Post-weaken,
}
use nachos_project_2_os_subj.Threads.Dispatch.{find_next_to_run, ready_to_run, run}
use nachos_project_2_os_subj.Threads.Clock.{
  Turn, goes, switched, on_return, set_machine_status, is_enabling, set_level_by, yield_by, advance,
  advance_in, check_at_tick, one_tick, set_level, yield,
}
use nachos_project_2_os_subj.Threads.Handlers.{Obey}
use nachos_project_2_os_subj.Threads.Invariant.{Sched, Sched-run, Sched-requeue}
use nachos_project_2_os_subj.Threads.Effects.{statuses, Effect, ready_to_run_lem, run_lem}
use nachos_project_2_os_subj.Threads.Consistent.{
  SchedBy, IsConsistent, SchedBy-same, SchedBy-Effect, StillBy, check_if_due-StillBy,
}

module _ {D : Type 0} where
  -- A turn ends with a consistent scheduler, and in the thread `c` where it does not switch.
  abbrev pub TurnOk : ℕ → Turn D → Type 0
  TurnOk c (goes v) = IsConsistent v × (v.current_thread ≡ c)
  TurnOk c (switched v) = IsConsistent v

  pub still-IsConsistent : (w v : System D) → StillBy (some w.current_thread) w v → IsConsistent v
  still-IsConsistent w v k = subst (λ c. SchedBy (some c) v) (sym k.1) k.0

  pub IsConsistent-same :
      (w v : System D)
      → v.threads ≡ w.threads
      → v.scheduler ≡ w.scheduler
      → v.current_thread ≡ w.current_thread
      → IsConsistent w
      → IsConsistent v
  IsConsistent-same w v e f g s =
      subst (λ c. SchedBy (some c) v) (sym g) (SchedBy-same (some w.current_thread) w v e f s)

  abbrev pub with_ready : List ℕ → System D → System D
  with_ready l w = record w { scheduler = record w.scheduler { ready_list = l } }

  -- The first of the ready threads is taken off, if there is one.
  abbrev pub Found : System D → System D × Option ℕ → Type 0
  Found w r =
      ((w.scheduler.ready_list ≡ []) × (r ≡ (w, none)))
      ⊎ ((next : ℕ) × (rest : List ℕ) × (w.scheduler.ready_list ≡ next ∷ rest)
          × (r ≡ (with_ready rest w, some next)))

  pub find_next_to_run_lem : (w : System D) → Post (Found w) (find_next_to_run w)
  unfolding find_next_to_run
  find_next_to_run_lem w = Post-any _ _ (λ _. from w.scheduler.ready_list refl)
    where
      from :
          (l : List ℕ)
          → w.scheduler.ready_list ≡ l
          → Post (Found w) (elim l [
            | [] ↦ ok (w, none)
            | thread ∷ rest ↦
                ok (record w { scheduler = record w.scheduler { ready_list = rest } }, some thread)
          ])
      from [] e = comes _ (inl (e, refl))
      from (next ∷ rest) e = comes _ (inr (next, rest, e, refl))

  -- The next thread runs, and the one that ran is the last of the ready ones.
  abbrev pub Handed : ℕ → List ℕ → System D → System D → Type 0
  Handed next rest w v =
      IsConsistent v
      × (v.current_thread ≡ next)
      × (v.scheduler.ready_list ≡ rest ++ w.current_thread ∷ [])

  -- What Yield does where another thread is ready.
  abbrev pub hand_over : (this next : ℕ) → System D → Result (Turn D)
  hand_over this next w = ready_to_run this w >>= λ w₁. run next false w₁ >>= λ w₂. ok (switched w₂)

  yield_to :
      (next : ℕ) (rest : List ℕ) (w : System D)
      → w.scheduler.ready_list ≡ next ∷ rest
      → IsConsistent w
      → Post
          (λ t. (v : System D) × (t ≡ switched v) × Handed next rest w v)
          (hand_over w.current_thread next (with_ready rest w))
  unfolding statuses
  yield_to next rest w e s =
      Post-bind (ready_to_run_lem w.current_thread _)
        (λ w₁ f. Post-bind (run_lem next false w₁) (λ v g. comes _ (v, refl, handed w₁ f v g)))
    where
      handed :
          (w₁ : System D)
          → Effect
              (with_ready rest w)
              w₁
              w.current_thread
              (some ready)
              w.current_thread
              (rest ++ w.current_thread ∷ [])
              w.scheduler.to_be_destroyed
          → (v : System D)
          → Effect w₁ v next
              (some running)
              next
              w₁.scheduler.ready_list
              w₁.scheduler.to_be_destroyed
          → Handed next rest w v
      handed w₁ f v g =
          let start =
            subst (λ l. Sched (statuses w) l (some w.current_thread) w.scheduler.to_be_destroyed) e
              s in
          let queued = Sched-requeue _ (statuses w₁) _ _ w.current_thread start f.status in
          let runs = Sched-run _ (statuses v) _ _ next queued g.status in
          let whole : Effect w₁ v next (some running) next (rest ++ w.current_thread ∷ [])
              w.scheduler.to_be_destroyed =
            record {
              status = g.status;
              current_is = g.current_is;
              list_is = g.list_is ∙ f.list_is;
              gone_is = g.gone_is ∙ f.gone_is;
              interrupts = g.interrupts;
            } in
          (
            subst (λ c. SchedBy (some c) v) (sym g.current_is)
                (SchedBy-Effect (some next) whole runs),
            g.current_is,
            whole.list_is,
          )

  pub TurnOk-of : {c d : ℕ} {r : Result (Turn D)} → c ≡ d → Post (TurnOk c) r → Post (TurnOk d) r
  TurnOk-of {r = r} e h = subst (λ c. Post (TurnOk c) r) e h

  Post-on_return :
      {c : ℕ} {r : Result (Turn D)} {rest : System D → Result (Turn D)}
      → Post (TurnOk c) r
      → ((v : System D) → IsConsistent v → v.current_thread ≡ c → Post (TurnOk c) (rest v))
      → Post (TurnOk c) (on_return r rest)
  Post-on_return (comes (goes v) h) k = k v h.0 h.1
  Post-on_return (comes (switched v) h) k = comes _ h
  Post-on_return (fails e) k = fails e

  pub this_is_current :
      (this : ℕ) (w : System D)
      → Post (λ _. this ≡ w.current_thread) (assert (this == w.current_thread))
  this_is_current this w = Post-of _ (λ _ e. ground arith)

  module _ (tick : System D → Result (Turn D))
      (tick_ok : (w : System D) → IsConsistent w → Post (TurnOk w.current_thread) (tick w)) where
    pub set_level_by-TurnOk :
        (now : IntStatus) (w : System D)
        → IsConsistent w
        → Post (TurnOk w.current_thread) (set_level_by tick now w)
    unfolding set_level_by
    set_level_by-TurnOk now w s =
        let v = change_level now w in
        let t = IsConsistent-same w v refl refl refl s in
        Post-any _ _
          (λ _. Post-cond (is_enabling now w.interrupt.level) _ _ (tick_ok v t) (comes _ (t, refl)))

    -- Yield, once it has looked for another thread.
    abbrev after_find : ℕ → IntStatus → System D × Option ℕ → Result (Turn D)
    after_find this old_level r = elim r.1 [
      | none ↦ set_level_by tick old_level r.0
      | some next ↦ hand_over this next r.0
    ]

    pub yield_by-TurnOk :
        (this : ℕ) (w : System D)
        → IsConsistent w
        → Post (TurnOk w.current_thread) (yield_by tick this w)
    unfolding yield_by
    yield_by-TurnOk this w s =
        let v = change_level int_off w in
        let t = IsConsistent-same w v refl refl refl s in
        Post-bind (this_is_current this w)
          (λ _ same. Post-bind (find_next_to_run_lem v) (λ r found. from same r found))
      where
        from :
            this ≡ w.current_thread
            → (r : System D × Option ℕ) → Found (change_level int_off w) r
            → Post (TurnOk w.current_thread) (after_find this w.interrupt.level r)
        from same r (inl (e, q)) =
            let v = change_level int_off w in
            subst (λ r. Post (TurnOk w.current_thread) (after_find this w.interrupt.level r))
              (sym q)
              (set_level_by-TurnOk w.interrupt.level v (IsConsistent-same w v refl refl refl s))
        from same r (inr (next, rest, e, q)) =
            let v = change_level int_off w in
            subst (λ r. Post (TurnOk w.current_thread) (after_find this w.interrupt.level r))
              (sym q)
              (subst (λ a. Post (TurnOk w.current_thread) (hand_over a next (with_ready rest v)))
                (sym same)
                (Post-weaken (λ t (u, d, h). subst (TurnOk w.current_thread) (sym d) h.0)
                  (yield_to next rest v e (IsConsistent-same w v refl refl refl s))))

  module _ (call_back : ℕ → System D → Result (System D)) (obey : Obey call_back) where
    advance-StillBy :
        (mode : MachineStatus) (w : System D)
        → IsConsistent w
        → Post (StillBy (some w.current_thread) w) (advance_in mode w)
    unfolding advance_in
    advance-StillBy system_mode w s =
        Post-any _ _ (λ _. comes _ (SchedBy-same _ w _ refl refl s, refl))
    advance-StillBy idle_mode w s =
        Post-any _ _ (λ _. comes _ (SchedBy-same _ w _ refl refl s, refl))
    advance-StillBy user_mode w s =
        Post-any _ _ (λ _. comes _ (SchedBy-same _ w _ refl refl s, refl))

    check_at_tick-StillBy :
        (w : System D)
        → IsConsistent w
        → Post (StillBy (some w.current_thread) w) (check_at_tick call_back w)
    unfolding check_at_tick
    check_at_tick-StillBy w s =
        let v = change_level int_off w in
        let c = some w.current_thread in
        Post-bind (check_if_due-StillBy call_back obey c false v (SchedBy-same c w v refl refl s))
          (λ r k. comes _ (SchedBy-same c r.0 (change_level int_on r.0) refl refl k.0, k.1))

    pub one_tick-TurnOk :
        (fuel : ℕ) (w : System D)
        → IsConsistent w
        → Post (TurnOk w.current_thread) (one_tick call_back fuel w)
    unfolding one_tick advance
    one_tick-TurnOk zero w s = fails _
    one_tick-TurnOk (suc fuel) w s = Post-bind (advance-StillBy w.interrupt.status w s) (λ w₁ k₁.
        let s₁ = still-IsConsistent w w₁ k₁ in
        Post-bind (check_at_tick-StillBy w₁ s₁) (λ w₂ k₂.
          let s₂ = still-IsConsistent w₁ w₂ k₂ in
          let w₃ : System D = record w₂ {
            interrupt = record w₂.interrupt { yield_on_return = false; status = system_mode };
          } in
          TurnOk-of (k₂.1 ∙ k₁.1) (
            Post-cond w₂.interrupt.yield_on_return _ _
              (Post-on_return
                (yield_by-TurnOk (one_tick call_back fuel) (one_tick-TurnOk fuel) w₂.current_thread
                  w₃ (IsConsistent-same w₂ w₃ refl refl refl s₂))
                (λ v t e.
                  comes (goes (set_machine_status w.interrupt.status v))
                    (IsConsistent-same v _ refl refl refl t, e)))
              (comes (goes w₂) (s₂, refl)))))

    pub set_level-TurnOk :
        (fuel : ℕ) (now : IntStatus) (w : System D)
        → IsConsistent w
        → Post (TurnOk w.current_thread) (set_level call_back fuel now w)
    unfolding set_level
    set_level-TurnOk fuel = set_level_by-TurnOk (one_tick call_back fuel) (one_tick-TurnOk fuel)

    pub yield-TurnOk :
        (fuel this : ℕ) (w : System D)
        → IsConsistent w
        → Post (TurnOk w.current_thread) (yield call_back fuel this w)
    unfolding yield
    yield-TurnOk fuel = yield_by-TurnOk (one_tick call_back fuel) (one_tick-TurnOk fuel)
