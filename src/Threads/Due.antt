-- ===== src/Threads/Due.antt =====
-- CheckIfDue and Idle: when they call handlers, and of which interrupts.
use nachos_project_2_os_subj.Base.{
  ℕ, ◌+◌, ◌-◌, ◌≤◌, ◌≡◌, refl, sym, arith, Bool, true, false, Bool-cases, ◌⊎◌, inl, inr, List, [],
  ◌∷◌, Result, ok, err, halted, ltb, leb, if◌then◌else◌,
}
use mathlib.Core.Path.{subst}
use nachos_project_2_os_subj.Threads.{PendingInterrupt, System, int_off, idle_mode, system_mode}
use nachos_project_2_os_subj.Threads.Interrupts.{
  set_in_handler, settle_machine, advance_clock, call_handlers, check_if_due, idle, is_due,
}
use nachos_project_2_os_subj.Threads.Clock.{set_machine_status}
use nachos_project_2_os_subj.Threads.Order.{due}
use nachos_project_2_os_subj.Threads.Handlers.{Obey}
use nachos_project_2_os_subj.Threads.Firing.{Fails, FiredAll, Calls, call_handlers_lem}

module _ {D : Type 0} (call_back : ℕ → System D → Result (System D)) where
  -- The clock at the time of the first interrupt, where that is in the future, with the time in
  -- between as idle; nothing else is changed.
  abbrev pub forwarded : PendingInterrupt → System D → System D
  forwarded next w = record w {
    stats = record w.stats {
      idle_ticks = w.stats.idle_ticks + (next.when - w.stats.total_ticks);
      total_ticks = if ltb w.stats.total_ticks next.when then next.when else w.stats.total_ticks;
    };
  }

  advanced :
      (next : PendingInterrupt) (w : System D)
      → ltb w.stats.total_ticks next.when ≡ true
      → forwarded next w ≡ advance_clock next w
  advanced next w later = rw later refl

  unmoved :
      (next : PendingInterrupt) (w : System D)
      → ltb w.stats.total_ticks next.when ≡ false
      → forwarded next w ≡ w
  unmoved next w soon =
      let none_between : w.stats.idle_ticks + (next.when - w.stats.total_ticks)
          ≡ w.stats.idle_ticks =
        ground arith in
      rw (soon, none_between) refl

  pub check_now :
      (advance : Bool) (w : System D) (next : PendingInterrupt) (rest : List PendingInterrupt)
      → w.interrupt.level ≡ int_off
      → w.interrupt.pending ≡ next ∷ rest
      → ltb w.stats.total_ticks next.when ≡ false
      → check_if_due call_back advance w ≡ call_handlers call_back w
  unfolding check_if_due
  check_now advance w next rest off e soon = simp (off, e, soon)

  pub check_early :
      (w : System D)
      → w.interrupt.level ≡ int_off
      → is_due w.interrupt.pending w.stats.total_ticks ≡ false
      → check_if_due call_back false w ≡ ok (w, false)
  unfolding check_if_due is_due
  check_early w off early = by_pending w.interrupt.pending refl
    where
      by_pending :
          (ps : List PendingInterrupt)
          → w.interrupt.pending ≡ ps
          → check_if_due call_back false w ≡ ok (w, false)
      by_pending [] e = simp (off, e)
      by_pending (p ∷ ps) e =
          let z = rw e at early in
          let later : ltb w.stats.total_ticks p.when ≡ true = ground arith in simp (off, e, later)

  check_ahead :
      (w : System D) (next : PendingInterrupt) (rest : List PendingInterrupt)
      → w.interrupt.level ≡ int_off
      → w.interrupt.pending ≡ next ∷ rest
      → ltb w.stats.total_ticks next.when ≡ true
      → check_if_due call_back true w ≡ call_handlers call_back (advance_clock next w)
  unfolding check_if_due
  check_ahead w next rest off e later = simp (off, e, later)

  -- With interrupts off and handlers that keep to their limits, CheckIfDue without a change of the
  -- clock: where nothing is due it answers FALSE and changes nothing; otherwise it calls the
  -- handlers of the interrupts that are due, each once and in their order, and no other, answers
  -- TRUE, and leaves the clock as it was and nothing due, or else it ends as a handler that did not
  -- return.
  pub check_if_due_fires :
      (w : System D)
      → Obey call_back
      → w.interrupt.level ≡ int_off
      → ((due w.stats.total_ticks w.interrupt.pending ≡ [])
          × (check_if_due call_back false w ≡ ok (w, false)))
        ⊎ ((x : PendingInterrupt) × (xs : List PendingInterrupt) × (due w.stats.total_ticks
                w.interrupt.pending
              ≡ x ∷ xs)
            × Calls call_back (x ∷ xs) w (check_if_due call_back false w))
  unfolding check_if_due due
  check_if_due_fires w obey off = by_pending w.interrupt.pending refl
    where
      by_pending :
          (ps : List PendingInterrupt)
          → w.interrupt.pending ≡ ps
          → ((due w.stats.total_ticks w.interrupt.pending ≡ [])
              × (check_if_due call_back false w ≡ ok (w, false)))
            ⊎ ((x : PendingInterrupt) × (xs : List PendingInterrupt) × (due w.stats.total_ticks
                    w.interrupt.pending
                  ≡ x ∷ xs)
                × Calls call_back (x ∷ xs) w (check_if_due call_back false w))
      by_pending [] e = inl (rw e refl, simp (off, e))
      by_pending (p ∷ ps) e = elim (Bool-cases (ltb w.stats.total_ticks p.when)) [
        | inl later ↦
            let no : leb p.when w.stats.total_ticks ≡ false = ground arith in
            inl (rw (e, no) refl, simp (off, e, later))
        | inr soon ↦
            let now : leb p.when w.stats.total_ticks ≡ true = ground arith in
            let d : due w.stats.total_ticks w.interrupt.pending ≡ p ∷ due w.stats.total_ticks ps =
              rw (e, now) refl in
            let called = call_handlers_lem call_back obey w p (due w.stats.total_ticks ps) d in
            let same = check_now false w p ps off e soon in
            inr (p, _, d, subst (Calls call_back _ w) (sym same) called)
      ]

  -- After Idle has called the handlers of `xs`, on `w`.
  pub Idles : List PendingInterrupt → System D → Result (System D) → Type 0
  Idles xs w r =
      ((v : System D) × (r ≡ ok (set_machine_status system_mode (set_in_handler false v)))
        × FiredAll call_back xs (set_in_handler true (settle_machine w)) v)
      ⊎ Fails call_back r

  idle-Calls :
      (xs : List PendingInterrupt) (w u : System D)
      → Calls call_back xs u (check_if_due call_back true (set_machine_status idle_mode w))
      → Idles xs u (idle call_back w)
  unfolding idle Calls Idles
  idle-Calls xs w u (inl (v, e, f)) = inl (v, rw e refl, f)
  idle-Calls xs w u (inr (i, y, fault, e, q)) = inr (i, y, fault, e, rw q refl)

  -- Idle on `w` with an interrupt pending, where the clock is put forward to the first one.
  abbrev pub IdlesAt : PendingInterrupt → System D → System D → Type 0
  IdlesAt next w u =
      (next.when ≤ u.stats.total_ticks)
      × (xs : List PendingInterrupt) × (due u.stats.total_ticks u.interrupt.pending ≡ next ∷ xs)
      × Idles (next ∷ xs) u (idle call_back w)

  idles_at :
      (next : PendingInterrupt) (rest : List PendingInterrupt) (w u : System D)
      → Obey call_back
      → u.interrupt.pending ≡ next ∷ rest
      → next.when ≤ u.stats.total_ticks
      → check_if_due call_back true (set_machine_status idle_mode w) ≡ call_handlers call_back u
      → IdlesAt next w u
  unfolding due
  idles_at next rest w u obey e h same =
      let now : leb next.when u.stats.total_ticks ≡ true = ground arith in
      let xs = due u.stats.total_ticks rest in
      let d : due u.stats.total_ticks u.interrupt.pending ≡ next ∷ xs = rw (e, now) refl in
      let called = call_handlers_lem call_back obey u next xs d in
      (h, xs, d, idle-Calls _ w u (subst (Calls call_back _ u) (sym same) called))

  -- With interrupts off and handlers that keep to their limits, Idle: with nothing pending it
  -- halts; otherwise the clock is put forward to the time of the first interrupt, where that is in
  -- the future, the ticks in between are counted as idle, the handlers of that one and of the
  -- others due then are called in their order, and the machine is in system mode again, or else it
  -- ends as a handler that did not return.
  pub idle_fires :
      (w : System D)
      → Obey call_back
      → w.interrupt.level ≡ int_off
      → ((w.interrupt.pending ≡ []) × (idle call_back w ≡ err halted))
        ⊎ ((next : PendingInterrupt) × (rest : List PendingInterrupt) × (w.interrupt.pending
              ≡ next ∷ rest)
            × IdlesAt next w (forwarded next (set_machine_status idle_mode w)))
  unfolding idle check_if_due
  idle_fires w obey off = by_pending w.interrupt.pending refl
    where
      by_pending :
          (ps : List PendingInterrupt)
          → w.interrupt.pending ≡ ps
          → ((w.interrupt.pending ≡ []) × (idle call_back w ≡ err halted))
            ⊎ ((next : PendingInterrupt) × (rest : List PendingInterrupt) × (w.interrupt.pending
                  ≡ next ∷ rest)
                × IdlesAt next w (forwarded next (set_machine_status idle_mode w)))
      by_pending [] e = inl (e, simp (off, e))
      by_pending (p ∷ ps) e =
          let at_rest = set_machine_status idle_mode w in
          inr (
            p,
            ps,
            e,
            elim (Bool-cases (ltb w.stats.total_ticks p.when)) [
              | inl later ↦
                  subst (IdlesAt p w) (sym (advanced p at_rest later))
                    (idles_at p ps w _ obey e (omega arith) (check_ahead at_rest p ps off e later))
              | inr soon ↦
                  subst (IdlesAt p w) (sym (unmoved p at_rest soon)) (
                    idles_at p ps w _ obey e (ground arith)
                      (check_now true at_rest p ps off e soon))
            ],
          )
