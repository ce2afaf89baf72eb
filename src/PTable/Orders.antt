-- ===== src/PTable/Orders.antt =====
-- A parent joins a child and the child exits, whichever calls first.
use nachos_project_2_os_subj.Base.{
  ℕ, ◌<◌, ◌≡◌, ◌≢◌, ◌∙◌, refl, sym, [], ◌∷◌, none, some, ok, get_elem?,
}
use nachos_project_2_os_subj.Synch.{Semaphore, semaphore, passed, asleep, p, v}
use nachos_project_2_os_subj.PTable.{Pcb, PTable, put, max_process}
use nachos_project_2_os_subj.PTable.Exit.{
  joined, join_sleeps, join_wait, join_update, exited, exit_sleeps, exit_wait, exit_update,
}
use nachos_project_2_os_subj.PTable.Slots.{Runs, put_self, put_other}
use nachos_project_2_os_subj.PTable.Handshake.{
  inc_lem, dec_lem, join_wait-asleep, join_wait-passed, join_update_lem, exit_wait-asleep,
  exit_wait-passed, exit_update_lem,
}

-- A parent and a child that run, of which neither has called yet.
pub record Family (t : PTable) (parent id : ℕ) : Type 0 where
  pub a : Pcb
  pub b : Pcb
  pub parent_runs : Runs t parent a
  pub child_runs : Runs t id b
  pub child_of : b.parent_id ≡ some parent
  pub apart : parent ≢ id
  pub not_main : id ≢ 0
  pub in_table : id < max_process
  pub mutex_free : a.mutex ≡ semaphore 1
  pub not_joined : b.joinsem ≡ semaphore 0
  pub not_exited : b.exitsem ≡ semaphore 0

abbrev taken : Semaphore
taken = semaphore 0

abbrev held_by : ℕ → Semaphore
held_by thread = record { value = 0; queue = thread ∷ [] }

sleeps_at_zero :
    (s : Semaphore) (thread : ℕ) → s ≡ semaphore 0 → p s thread ≡ ok (asleep (held_by thread))
unfolding p
sleeps_at_zero s thread e = rw e refl

-- A semaphore that V has been called on lets a thread pass.
passes_after : (thread other : ℕ) → p (v (held_by thread)).0 other ≡ ok (passed taken)
unfolding p v
passes_after thread other = refl

passes_after_zero :
    (s : Semaphore) (thread : ℕ) → s ≡ semaphore 0 → p (v s).0 thread ≡ ok (passed taken)
unfolding p v
passes_after_zero s thread e = rw e refl

wakes_none : (s : Semaphore) → s ≡ semaphore 0 → (v s).1 ≡ none
unfolding v
wakes_none s e = rw e refl

wakes_holder : (thread : ℕ) → (v (held_by thread)).1 ≡ some thread
unfolding v
wakes_holder thread = refl

-- The child, once its parent has let it pass, is gone from the table.
gone :
    (t : PTable) (id : ℕ) (b : Pcb)
    → Runs t id b
    → p b.exitsem id ≡ ok (passed taken)
    → (t' : PTable) × (exit_wait t id ≡ ok (exited t')) × (get_elem? t'.pcb id ≡ some none)
gone t id b r e =
    let b' = record b { exitsem = taken } in
    (
      put (put t id (some b')) id none,
      exit_wait-passed t id b r taken e,
      put_self (put t id (some b')) id b' none (put_self t id b (some b') r),
    )

-- Where a parent joins a running child and the child exits afterwards: the join sleeps, the exit
-- wakes the parent and sleeps, the join then returns the exit code and wakes the child, and the
-- child leaves the table.
pub join_then_exit :
    (t : PTable) (parent id code : ℕ)
    → Family t parent id
    → (t₁ t₂ t₃ t₄ : PTable) × (join_update t id parent ≡ ok (join_sleeps t₁))
      × (exit_update t₁ code id ≡ ok (some parent, exit_sleeps t₂))
      × (join_wait t₂ id parent ≡ ok (joined t₃ (some code) (some id)))
      × (exit_wait t₃ id ≡ ok (exited t₄))
      × (get_elem? t₄.pcb id ≡ some none)
unfolding v
join_then_exit t parent id code f =
    let (a₁, e₁, m₁) = inc_lem f.a parent f.mutex_free in
    let t₀ = put t parent (some a₁) in
    let r₀ : Runs t₀ id f.b = put_other t parent id (some a₁) f.apart ∙ f.child_runs in
    let b₁ = record (f.b) { joinsem = held_by parent } in
    let t₁ = put t₀ id (some b₁) in
    let r₁ : Runs t₁ id b₁ = put_self t₀ id f.b (some b₁) r₀ in
    let ra₁ : Runs t₁ parent a₁ =
      put_other t₀ id parent (some b₁) (λ q. f.apart (sym q))
      ∙ put_self t parent f.a (some a₁) f.parent_runs in
    let (a₂, e₂, m₂) = dec_lem a₁ id m₁ in
    let (u, ru, rp, eu) =
      exit_update_lem t₁ id b₁ r₁ code parent a₁ a₂ f.not_main f.child_of f.apart ra₁ e₂ in
    let bu = record b₁ { exitcode = some code; joinsem = (v (held_by parent)).0 } in
    let b₂ = record bu { exitsem = held_by id } in
    let t₂ = put u id (some b₂) in
    let r₂ : Runs t₂ id b₂ = put_self u id bu (some b₂) ru in
    let b₃ = record b₂ { joinsem = taken; exitsem = (v (held_by id)).0 } in
    let t₃ = put t₂ id (some b₃) in
    let r₃ : Runs t₃ id b₃ = put_self t₂ id b₂ (some b₃) r₂ in
    let (t₄, last, free) = gone t₃ id b₃ r₃ (passes_after id id) in
    (
      t₁,
      t₂,
      t₃,
      t₄,
      join_update_lem t id parent f.b f.child_runs f.a a₁ f.in_table f.child_of f.parent_runs e₁
          ∙ join_wait-asleep t₀ id parent f.b r₀ (held_by parent)
              (sleeps_at_zero f.b.joinsem parent f.not_joined),
      eu
          ∙ rw
              (exit_wait-asleep u id bu ru (held_by id)
                (sleeps_at_zero f.b.exitsem id f.not_exited))
              refl,
      join_wait-passed t₂ id parent b₂ r₂ taken (passes_after parent parent),
      last,
      free,
    )

-- Where a running child exits and its parent joins it afterwards: the exit sleeps and wakes nobody,
-- the join returns the exit code at once and wakes the child, and the child leaves the table.
pub exit_then_join :
    (t : PTable) (parent id code : ℕ)
    → Family t parent id
    → (t₁ t₂ t₃ : PTable) × (exit_update t code id ≡ ok (none, exit_sleeps t₁))
      × (join_update t₁ id parent ≡ ok (joined t₂ (some code) (some id)))
      × (exit_wait t₂ id ≡ ok (exited t₃))
      × (get_elem? t₃.pcb id ≡ some none)
unfolding v
exit_then_join t parent id code f =
    let (a₁, e₁, m₁) = dec_lem f.a id f.mutex_free in
    let (u, ru, rp, eu) =
      exit_update_lem t id f.b f.child_runs code parent f.a a₁ f.not_main f.child_of f.apart
        f.parent_runs e₁ in
    let bu = record (f.b) { exitcode = some code; joinsem = (v f.b.joinsem).0 } in
    let b₁ = record bu { exitsem = held_by id } in
    let t₁ = put u id (some b₁) in
    let r₁ : Runs t₁ id b₁ = put_self u id bu (some b₁) ru in
    let ra₁ : Runs t₁ parent a₁ = put_other u id parent (some b₁) (λ q. f.apart (sym q)) ∙ rp in
    let (a₂, e₂, m₂) = inc_lem a₁ parent m₁ in
    let w = put t₁ parent (some a₂) in
    let rw₁ : Runs w id b₁ = put_other t₁ parent id (some a₂) f.apart ∙ r₁ in
    let b₂ = record b₁ { joinsem = taken; exitsem = (v (held_by id)).0 } in
    let t₂ = put w id (some b₂) in
    let r₂ : Runs t₂ id b₂ = put_self w id b₁ (some b₂) rw₁ in
    let (t₃, last, free) = gone t₂ id b₂ r₂ (passes_after id id) in
    (
      t₁,
      t₂,
      t₃,
      eu
          ∙ rw
              (
                exit_wait-asleep u id bu ru (held_by id)
                    (sleeps_at_zero f.b.exitsem id f.not_exited),
                wakes_none f.b.joinsem f.not_joined,
              )
              refl,
      join_update_lem t₁ id parent b₁ r₁ a₁ a₂ f.in_table f.child_of ra₁ e₂
          ∙ join_wait-passed w id parent b₁ rw₁ taken
              (passes_after_zero f.b.joinsem parent f.not_joined),
      last,
      free,
    )
