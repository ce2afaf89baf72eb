-- ===== src/Threads/Switch.antt =====
-- What a thread finds when it runs again after a switch.
use nachos_project_2_os_subj.Base.{
  ℕ, zero, suc, ◌+◌, ◌≤◌, ◌<◌, ◌≡◌, ◌∙◌, refl, ap, sym, arith, ◌==◌, true, false, ◌&&◌, Bool-cases,
  inl, inr, none, some, ok, ◌>>=◌, deref, assert, sle, slt, bind_ok, if◌then◌else◌,
}
use nachos_project_2_os_subj.Machine.{
  Machine, num_total_regs, read_register, write_register, update,
}
use nachos_project_2_os_subj.AddrSpace.{AddrSpace, restore_state}
use nachos_project_2_os_subj.Threads.{
  Thread, running, int_off, System, store_thread, set_status, assert_off, is_off, ThreadStatus,
}
use nachos_project_2_os_subj.Lists.Chains.{some-injective}
use nachos_project_2_os_subj.Lists.Reps.{self_eq}
use nachos_project_2_os_subj.Threads.Dispatch.{
  save_registers, restore_registers, save_user_state, restore_user_state, run, run_again,
  mark_finishing, save_state, check_overflow, delete_thread, check_to_be_destroyed, load_state,
}

register_in_range : (i : ℕ) → i < num_total_regs → (sle 0 i && slt i num_total_regs) ≡ true
register_in_range i h = ground arith

reads : (m : Machine) (i : ℕ) → i < num_total_regs → read_register m i ≡ ok (m.registers i)
unfolding read_register
reads m i h = rw (register_in_range i h) refl

writes :
    (m : Machine) (i v : ℕ)
    → i < num_total_regs
    → write_register m i v ≡ ok (record m { registers = update m.registers i v })
unfolding write_register
writes m i v h = rw (register_in_range i h) refl

-- The loop of SaveUserState saves the registers that it goes over.
abbrev pub SavedFrom : (n i : ℕ) → Machine → (ℕ → ℕ) → (ℕ → ℕ) → Type 0
SavedFrom n i m before saved =
    ((j : ℕ) → i ≤ j → j < i + n → saved j ≡ m.registers j) × ((j : ℕ) → j < i → saved j ≡ before j)

pub save_registers_lem :
    (n i : ℕ) (m : Machine) (before : ℕ → ℕ)
    → i + n ≤ num_total_regs
    → (saved : ℕ → ℕ) × (save_registers n i m before ≡ ok saved) × SavedFrom n i m before saved
unfolding save_registers
save_registers_lem zero i m before h =
    (before, refl, ((λ j k l. absurd (omega arith)), λ j k. refl))
save_registers_lem (suc n) i m before h =
    let now : ℕ → ℕ = λ j. if i == j then m.registers i else before j in
    let (saved, e, (f, g)) = save_registers_lem n (suc i) m now (omega arith) in
    (
      saved,
      rw (reads m i (omega arith)) e,
      (
        (λ j k l. elim (Bool-cases (i == j)) [
          | inl same ↦
              let q : i ≡ j = ground arith in g j (omega arith) ∙ rw same (ap m.registers q)
          | inr other ↦ f j (ground arith) (omega arith)
        ]),
        λ j k. let other : (i == j) ≡ false = ground arith in g j (omega arith) ∙ rw other refl,
      ),
    )

-- The loop of RestoreUserState restores them, and nothing else of the machine changes.
abbrev pub RestoredFrom : (n i : ℕ) → (ℕ → ℕ) → Machine → Machine → Type 0
RestoredFrom n i saved m m' =
    ((j : ℕ) → i ≤ j → j < i + n → m'.registers j ≡ saved j)
    × ((j : ℕ) → j < i → m'.registers j ≡ m.registers j)
    × (m'.main_memory ≡ m.main_memory)

pub restore_registers_lem :
    (n i : ℕ) (saved : ℕ → ℕ) (m : Machine)
    → i + n ≤ num_total_regs
    → (m' : Machine) × (restore_registers n i saved m ≡ ok m') × RestoredFrom n i saved m m'
unfolding restore_registers
restore_registers_lem zero i saved m h =
    (m, refl, ((λ j k l. absurd (omega arith)), (λ j k. refl), refl))
restore_registers_lem (suc n) i saved m h =
    let m₁ : Machine = record m { registers = update m.registers i (saved i) } in
    let (m', e, (f, g, same)) = restore_registers_lem n (suc i) saved m₁ (omega arith) in
    (
      m',
      rw (writes m i (saved i) (omega arith)) e,
      (
        (λ j k l. elim (Bool-cases (i == j)) [
          | inl here ↦ let q : i ≡ j = ground arith in g j (omega arith) ∙ rw here (ap saved q)
          | inr other ↦ f j (ground arith) (omega arith)
        ]),
        (λ j k. let other : (i == j) ≡ false = ground arith in g j (omega arith) ∙ rw other refl),
        same,
      ),
    )

module _ {D : Type 0} where
  save_user_state_lem :
      (a : ℕ) (w : System D) (t : Thread) (m : Machine) (saved : ℕ → ℕ)
      → w.threads a ≡ some t
      → w.machine ≡ some m
      → save_registers num_total_regs 0 m t.user_registers ≡ ok saved
      → save_user_state a w
        ≡ ok (record w {
          threads = store_thread w.threads a (some (record t { user_registers = saved }));
        })
  unfolding save_user_state
  save_user_state_lem a w t m saved e g r = simp (e, g, r)

  set_status_at :
      (a : ℕ) (st : ThreadStatus) (w : System D) (t : Thread)
      → w.threads a ≡ some t
      → set_status a st w
        ≡ ok (record w { threads = store_thread w.threads a (some (record t { status = st })) })
  unfolding set_status
  set_status_at a st w t e = simp e

  -- Run without an end of the thread, step by step.
  off_passes : (w : System D) → w.interrupt.level ≡ int_off → assert_off w ≡ ok tt
  off_passes w off = ap (λ l. assert (is_off l)) off

  -- The switch away from a thread that runs a program saves the registers of the machine.
  pub run_saves :
      (next : ℕ) (w : System D) (t n : Thread) (space : AddrSpace) (m : Machine)
      → w.interrupt.level ≡ int_off
      → w.threads w.current_thread ≡ some t
      → t.space ≡ some space
      → check_overflow t ≡ ok tt
      → w.machine ≡ some m
      → w.threads next ≡ some n
      → (w.current_thread == next) ≡ false
      → (v : System D) × (saved : ℕ → ℕ) × (run next false w ≡ ok v)
        × (v.current_thread ≡ next)
        × (v.threads w.current_thread ≡ some (record t { user_registers = saved }))
        × ((j : ℕ) → j < num_total_regs → saved j ≡ m.registers j)
  unfolding run mark_finishing
  run_saves next w t n space m off e f sound g h ne =
      let (saved, r, (a, _)) =
        save_registers_lem num_total_regs 0 m t.user_registers (omega arith) in
      let old = w.current_thread in
      let kept = store_thread w.threads old (some (record t { user_registers = saved })) in
      let found : kept next ≡ some n = rw ne h in
      let w₁ : System D = record w { threads = kept } in
      let ne' : (next == old) ≡ false = ground arith in
      (
        _,
        saved,
        bind_ok _ (off_passes w off) (
            bind_ok _ (ap deref e) (
              bind_ok _ (ap (λ s. save_state old s w) f ∙ save_user_state_lem old w t m saved e g r)
                (bind_ok _ sound
                  (set_status_at next running (record w₁ { current_thread = next }) n found)))),
        refl,
        rw (ne', self_eq old) refl,
        (λ j k. a j (omega arith) (omega arith)),
      )

  restore_user_state_lem :
      (a : ℕ) (w : System D) (t : Thread) (m m' : Machine)
      → w.threads a ≡ some t
      → w.machine ≡ some m
      → restore_registers num_total_regs 0 t.user_registers m ≡ ok m'
      → restore_user_state a w ≡ ok (record w { machine = some m' })
  unfolding restore_user_state
  restore_user_state_lem a w t m m' e g r = simp (e, g, r)

  none_to_destroy :
      (w : System D) → w.scheduler.to_be_destroyed ≡ none → check_to_be_destroyed w ≡ ok w
  unfolding check_to_be_destroyed
  none_to_destroy w gone =
      ap
        (λ o. elim o [
          | none ↦ ok w
          | some thread ↦ delete_thread thread w >>= λ w₁.
              ok (record w₁ { scheduler = record w₁.scheduler { to_be_destroyed = none } })
        ])
        gone

  -- The switch back to it gives the machine its registers and its page table.
  pub run_again_restores :
      (old : ℕ) (u : System D) (t : Thread) (space : AddrSpace) (m : Machine)
      → u.interrupt.level ≡ int_off
      → u.scheduler.to_be_destroyed ≡ none
      → u.threads old ≡ some t
      → t.space ≡ some space
      → u.machine ≡ some m
      → (x : System D) × (m' : Machine) × (run_again old u ≡ ok x)
        × (x.machine ≡ some m')
        × ((j : ℕ) → j < num_total_regs → m'.registers j ≡ t.user_registers j)
        × (m'.page_table ≡ space.page_table)
        × (m'.page_table_size ≡ space.num_pages)
        × (m'.main_memory ≡ m.main_memory)
  unfolding run_again load_state restore_state
  run_again_restores old u t space m off gone e f g =
      let (m₁, r, (a, _, mem)) =
        restore_registers_lem num_total_regs 0 t.user_registers m (omega arith) in
      let m' : Machine = restore_state space m₁ in
      (
        record u { machine = some m' },
        m',
        bind_ok _ (off_passes u off) (
            bind_ok _ (none_to_destroy u gone) (
              bind_ok _ (ap deref e) (
                ap (λ s. load_state old s u) f
                ∙ bind_ok _ (restore_user_state_lem old u t m m₁ e g r) refl))),
        refl,
        (λ j k. a j (omega arith) (omega arith)),
        refl,
        refl,
        mem,
      )

  -- Where Run switches with interrupts off from a thread that runs a program and whose stack is
  -- sound to another thread: it returns at SWITCH in that thread; and when the first runs again,
  -- with interrupts off, no thread to be destroyed, and its saved registers and address space as
  -- they were left, the machine has all its registers as they were and the page table of its
  -- program, whatever they have become in between, and the memory as it has become.
  pub run_again-run :
      (next : ℕ) (w u : System D) (t n : Thread) (space : AddrSpace) (m m₁ : Machine)
      → w.interrupt.level ≡ int_off
      → w.threads w.current_thread ≡ some t
      → t.space ≡ some space
      → check_overflow t ≡ ok tt
      → w.machine ≡ some m
      → w.threads next ≡ some n
      → (w.current_thread == next) ≡ false
      → u.interrupt.level ≡ int_off
      → u.scheduler.to_be_destroyed ≡ none
      → u.machine ≡ some m₁
      → (v : System D) × (run next false w ≡ ok v)
        × (v.current_thread ≡ next)
        × ((t₁ t₂ : Thread)
            → v.threads w.current_thread ≡ some t₁
            → u.threads w.current_thread ≡ some t₂
            → t₂.user_registers ≡ t₁.user_registers
            → t₂.space ≡ t₁.space
            → (x : System D) × (m₂ : Machine) × (run_again w.current_thread u ≡ ok x)
              × (x.machine ≡ some m₂)
              × ((j : ℕ) → j < num_total_regs → m₂.registers j ≡ m.registers j)
              × (m₂.page_table ≡ space.page_table)
              × (m₂.page_table_size ≡ space.num_pages)
              × (m₂.main_memory ≡ m₁.main_memory))
  run_again-run next w u t n space m m₁ off e f sound g h ne uoff gone k =
      let (v, saved, q, c, s, a) = run_saves next w t n space m off e f sound g h ne in
      (
        v,
        q,
        c,
        λ t₁ t₂ p₁ p₂ regs sp.
            let is : record t { user_registers = saved } ≡ t₁ = some-injective (sym s ∙ p₁) in
            let sp' = sp ∙ ap (λ (y : Thread). y.space) (sym is) ∙ f in
            let (x, m₂, z, i, b, d₁, d₂, d₃) =
              run_again_restores w.current_thread u t₂ space m₁ uoff gone p₂ sp' k in
            (
              x,
              m₂,
              z,
              i,
              (λ j l.
                  b j l
                  ∙ ap (λ (y : ℕ → ℕ). y j) (regs ∙ ap (λ (y : Thread). y.user_registers) (sym is))
                  ∙ a j l),
              d₁,
              d₂,
              d₃,
            ),
      )
