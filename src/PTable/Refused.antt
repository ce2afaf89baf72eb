-- ===== src/PTable/Refused.antt =====
-- Joins that are refused, and the exit of a process whose parent is gone.
use nachos_project_2_os_subj.Base.{
  ℕ, ◌<◌, ◌^◌, ◌≡◌, ◌≢◌, ◌∙◌, refl, ap, arith, true, false, not, ◌||◌, Bool-cases, Option, none,
  some, ok, err, wild_access, ◌⊎◌, inl, inr, get_elem?, get_elem?-lt, length, slt, minus_one, deref,
  dec_lt, ◌==◌,
}
use nachos_project_2_os_subj.PTable.{Pcb, PTable, process_at, put, max_process}
use nachos_project_2_os_subj.PTable.Exit.{joined, join_update, is_child, exit_update}
use nachos_project_2_os_subj.PTable.Slots.{Runs, put_other}

is_child_lem :
    (slot : Option Pcb) (current : ℕ)
    → ((b : Pcb) × (slot ≡ some b) × (b.parent_id ≡ some current)) ⊎ (is_child slot current ≡ false)
is_child_lem none current = inr refl
is_child_lem (some b) current = with_parent b.parent_id refl
  where
    with_parent :
        (o : Option ℕ)
        → b.parent_id ≡ o
        → ((b' : Pcb) × (some b ≡ some b') × (b'.parent_id ≡ some current))
          ⊎ (is_child (some b) current ≡ false)
    with_parent none e = inr (rw e refl)
    with_parent (some parent) e = elim (Bool-cases (parent == current)) [
      | inl same ↦ inl (b, refl, e ∙ ground arith)
      | inr other ↦ inr (rw e other)
    ]

-- On a table of ten slots, JoinUpdate of any number that does not name a process whose parent is
-- the caller answers -1 and changes nothing.
pub join_refused :
    (t : PTable) (id current : ℕ)
    → length t.pcb ≡ max_process
    → id < 2 ^ 32
    → ((b : Pcb) × Runs t id b × (b.parent_id ≡ some current))
      ⊎ (join_update t id current ≡ ok (joined t (some minus_one) none))
unfolding join_update
join_refused t id current n w = elim (dec_lt id max_process) [
  | no beyond ↦
      let outside : (slt id 0 || not (slt id max_process)) ≡ true = ground arith in
      inr (rw outside refl)
  | yes l ↦
      let inside : (slt id 0 || not (slt id max_process)) ≡ false = ground arith in
      let (slot, g) = get_elem?-lt t.pcb id (omega arith) in
      elim (is_child_lem slot current) [
        | inl (b, e, parent) ↦ inl (b, g ∙ ap some e, parent)
        | inr no_child ↦ inr (rw (inside, g, no_child) refl)
      ]
]

-- ExitUpdate by a process other than the main one, whose parent has left the table, uses the null
-- pointer of its parent.
pub exit_orphan :
    (t : PTable) (code id parent : ℕ) (b : Pcb)
    → Runs t id b
    → id ≢ 0
    → b.parent_id ≡ some parent
    → get_elem? t.pcb parent ≡ some none
    → exit_update t code id ≡ err wild_access
unfolding exit_update process_at
exit_orphan t code id parent b r nz e g =
    let b₁ = record b { exitcode = some code } in
    let main : (id == 0) ≡ false = ground arith in
    let apart : id ≢ parent = λ q. cc (r, g, q) in
    let g₁ : get_elem? (put t id (some b₁)).pcb parent ≡ some none =
      put_other t id parent (some b₁) apart ∙ g in
    rw (main, r, ap deref e, g₁) refl
