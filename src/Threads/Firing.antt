-- ===== src/Threads/Firing.antt =====
-- The loop of CheckIfDue calls the handlers of the interrupts that are due, each once, in their order.
use nachos_project_2_os_subj.Base.{
  ℕ, zero, suc, ◌≤◌, ◌<◌, ◌≡◌, ◌∙◌, refl, ap, sym, arith, Bool, true, false, Bool-cases, ◌⊎◌, inl,
  inr, List, [], ◌∷◌, length, Result, ok, err, Fault, leb,
}
use nachos_project_2_os_subj.Threads.{PendingInterrupt, System}
use nachos_project_2_os_subj.Threads.Interrupts.{
  set_pending, set_in_handler, settle_machine, is_due, fire, call_handlers,
}
use nachos_project_2_os_subj.Threads.Order.{due, is_due_of}
use nachos_project_2_os_subj.Threads.Handlers.{Obey, Kept, Does-Kept}

module _ {D : Type 0} (call_back : ℕ → System D → Result (System D)) where
  -- From `w` on, the handlers of the interrupts are called one after the other, each as the first of
  -- those pending and taken off before the call, and leave `v`.
  abbrev pub Fired : List PendingInterrupt → System D → System D → Type 0
  Fired [] w v = v ≡ w
  Fired (x ∷ xs) w v =
      (rest : List PendingInterrupt) × (u : System D) × (w.interrupt.pending ≡ x ∷ rest)
      × (call_back x.call_on_interrupt (set_pending rest w) ≡ ok u)
      × Fired xs u v

  -- Some handler that was called does not return.
  abbrev pub Fails : {A : Type 0} → Result A → Type 0
  Fails {A} r = (i : ℕ) × (u : System D) × (e : Fault) × (call_back i u ≡ err e) × (r ≡ err e)

  -- After the handlers of `xs`: the same time, level, mode and thread, and nothing is due.
  pub record FiredAll (xs : List PendingInterrupt) (w v : System D) : Type 0 where
    pub fired : Fired xs w v
    pub current : v.current_thread ≡ w.current_thread
    pub clock : v.stats ≡ w.stats
    pub level : v.interrupt.level ≡ w.interrupt.level
    pub status : v.interrupt.status ≡ w.interrupt.status
    pub handling : v.interrupt.in_handler ≡ w.interrupt.in_handler
    pub none_left : due w.stats.total_ticks v.interrupt.pending ≡ []

  split_due :
      (now : ℕ) (ps : List PendingInterrupt) (x : PendingInterrupt) (xs : List PendingInterrupt)
      → due now ps ≡ x ∷ xs
      → (rest : List PendingInterrupt) × (ps ≡ x ∷ rest)
        × (due now rest ≡ xs)
        × (is_due ps now ≡ true)
  unfolding due is_due
  split_due now [] x xs h = cc
  split_due now (p ∷ ps) x xs h = elim (Bool-cases (leb p.when now)) [
    | inl soon ↦ let e : p ∷ due now ps ≡ x ∷ xs = rw soon at h in (ps, cc, cc, soon)
    | inr later ↦ let e : [] ≡ x ∷ xs = rw later at h in cc
  ]

  -- The first handler called, before the others.
  FiredAll-cons :
      (x : PendingInterrupt) (xs rest : List PendingInterrupt) (w u v : System D)
      → w.interrupt.pending ≡ x ∷ rest
      → call_back x.call_on_interrupt (set_pending rest w) ≡ ok u
      → Kept (set_pending rest w) u
      → FiredAll xs u v
      → FiredAll (x ∷ xs) w v
  FiredAll-cons x xs rest w u v e q k f = record {
    fired = (rest, u, e, q, f.fired);
    current = f.current ∙ k.current;
    clock = f.clock ∙ k.clock;
    level = f.level ∙ k.level;
    status = f.status ∙ k.status;
    handling = f.handling ∙ k.handling;
    none_left = ap (λ s. due s.total_ticks v.interrupt.pending) (sym k.clock) ∙ f.none_left;
  }

  FiredAll-nil : (w : System D) → due w.stats.total_ticks w.interrupt.pending ≡ [] → FiredAll [] w w
  FiredAll-nil w h = record {
    fired = refl;
    current = refl;
    clock = refl;
    level = refl;
    status = refl;
    handling = refl;
    none_left = h;
  }

  -- The handlers of `xs` are called, or one of them does not return.
  abbrev pub FiresOrFails : List PendingInterrupt → System D → Result (System D) → Type 0
  FiresOrFails xs w r = ((v : System D) × (r ≡ ok v) × FiredAll xs w v) ⊎ Fails r

  one_more :
      (x : PendingInterrupt) (xs rest : List PendingInterrupt) (w u : System D)
      (r s : Result (System D))
      → w.interrupt.pending ≡ x ∷ rest
      → call_back x.call_on_interrupt (set_pending rest w) ≡ ok u
      → Kept (set_pending rest w) u
      → r ≡ s
      → FiresOrFails xs u s
      → FiresOrFails (x ∷ xs) w r
  one_more x xs rest w u r s e q k p (inl (v, g, f)) =
      inl (v, p ∙ g, FiredAll-cons x xs rest w u v e q k f)
  one_more x xs rest w u r s e q k p (inr (i, y, fault, g, h)) = inr (i, y, fault, g, p ∙ h)

  -- What CheckIfDue comes back with where it calls the handlers of `xs`, on `w`.
  unfoldable pub Calls : List PendingInterrupt → System D → Result (System D × Bool) → Type 0
  Calls xs w r =
      ((v : System D) × (r ≡ ok (set_in_handler false v, true))
        × FiredAll xs (set_in_handler true (settle_machine w)) v)
      ⊎ Fails r

  module _ (obey : Obey call_back) where
    left_due :
        (w u : System D) (rest : List PendingInterrupt)
        → Kept (set_pending rest w) u
        → due u.stats.total_ticks u.interrupt.pending ≡ due w.stats.total_ticks rest
    left_due w u rest k = ap (λ s. due s.total_ticks u.interrupt.pending) k.clock ∙ k.due_kept

    -- One round, given what the further rounds do.
    fire_round :
        (n : ℕ) (w : System D) (x : PendingInterrupt) (xs : List PendingInterrupt)
        → ((u : System D) (y : PendingInterrupt) (ys : List PendingInterrupt)
            → due u.stats.total_ticks u.interrupt.pending ≡ y ∷ ys
            → length ys < n
            → FiresOrFails (y ∷ ys) u (fire call_back n u))
        → due w.stats.total_ticks w.interrupt.pending ≡ x ∷ xs
        → length xs ≤ n
        → FiresOrFails (x ∷ xs) w (fire call_back (suc n) w)
    unfolding fire
    fire_round n w x xs further h k =
        let (rest, e, d, _) = split_due _ _ x xs h in
        called rest e d (call_back x.call_on_interrupt (set_pending rest w)) refl
      where
        round :
            {rest : List PendingInterrupt} {u : System D}
            → w.interrupt.pending ≡ x ∷ rest
            → call_back x.call_on_interrupt (set_pending rest w) ≡ ok u
            → fire call_back (suc n) w ≡ (elim (is_due u.interrupt.pending u.stats.total_ticks) [
              | true ↦ fire call_back n u
              | false ↦ ok u
            ])
        round e q = rw (e, q) refl

        goes_on :
            (xs rest : List PendingInterrupt) (u : System D)
            → w.interrupt.pending ≡ x ∷ rest
            → call_back x.call_on_interrupt (set_pending rest w) ≡ ok u
            → Kept (set_pending rest w) u
            → due u.stats.total_ticks u.interrupt.pending ≡ xs
            → length xs ≤ n
            → FiresOrFails (x ∷ xs) w (fire call_back (suc n) w)
        goes_on [] rest u e q kept left h =
            let over = is_due_of _ u.interrupt.pending left in
            one_more x [] rest w u _ _ e q kept
              (round e q ∙ ap (λ b. elim b [ true ↦ fire call_back n u | false ↦ ok u ]) over)
              (inl (u, refl, FiredAll-nil u left))
        goes_on (y ∷ ys) rest u e q kept left h =
            let (_, _, _, some_due) = split_due _ _ y ys left in
            one_more x (y ∷ ys) rest w u _ _ e q kept
              (round e q ∙ ap (λ b. elim b [ true ↦ fire call_back n u | false ↦ ok u ]) some_due)
              (further u y ys left h)

        called :
            (rest : List PendingInterrupt)
            → w.interrupt.pending ≡ x ∷ rest
            → due w.stats.total_ticks rest ≡ xs
            → (r : Result (System D)) → call_back x.call_on_interrupt (set_pending rest w) ≡ r
            → FiresOrFails (x ∷ xs) w (fire call_back (suc n) w)
        called rest e d (err fault) q = inr (_, _, fault, q, rw (e, q) refl)
        called rest e d (ok u) q =
            let kept = Does-Kept (obey _ _ _ q) in
            goes_on xs rest u e q kept (left_due w u rest kept ∙ d) k

    fire_lem :
        (fuel : ℕ) (w : System D) (x : PendingInterrupt) (xs : List PendingInterrupt)
        → due w.stats.total_ticks w.interrupt.pending ≡ x ∷ xs
        → length xs < fuel
        → FiresOrFails (x ∷ xs) w (fire call_back fuel w)
    fire_lem zero w x xs h k = elim k [ ]
    fire_lem (suc n) w x xs h k = fire_round n w x xs (fire_lem n) h (omega arith)

    length-due : (now : ℕ) (ps : List PendingInterrupt) → length (due now ps) ≤ length ps
    unfolding due
    length-due now [] = omega arith
    length-due now (p ∷ ps) = ground (arith, length-due now ps)

    pub call_handlers_lem :
        (w : System D) (x : PendingInterrupt) (xs : List PendingInterrupt)
        → due w.stats.total_ticks w.interrupt.pending ≡ x ∷ xs
        → Calls (x ∷ xs) w (call_handlers call_back w)
    unfolding call_handlers Calls
    call_handlers_lem w x xs h =
        let ready : System D = set_in_handler true (settle_machine w) in
        let enough : length xs < length w.interrupt.pending =
          omega (arith, length-due w.stats.total_ticks w.interrupt.pending, ap length h) in
        elim (fire_lem (length w.interrupt.pending) ready x xs h enough) [
          | inl (v, e, f) ↦ inl (v, rw e refl, f)
          | inr (i, u, fault, e, q) ↦ inr (i, u, fault, e, rw q refl)
        ]
