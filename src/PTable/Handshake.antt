-- ===== src/PTable/Handshake.antt =====
-- The calls of a parent that joins a child and of the child that exits, one at a time.
use nachos_project_2_os_subj.Base.{
  ℕ, ◌+◌, ◌<◌, ◌≡◌, ◌≢◌, ◌∙◌, refl, sym, ap, arith, true, false, Option, none, some, ok, ◌>>=◌, slt,
  ◌==◌, deref, u32, ◌-◌, if◌then◌else◌,
}
use nachos_project_2_os_subj.Synch.{Semaphore, semaphore, passed, asleep, p, v}
use nachos_project_2_os_subj.PTable.{
  Pcb, PTable, put, enter, inc_num_wait, dec_num_wait, max_process,
}
use nachos_project_2_os_subj.PTable.Exit.{
  joined, join_sleeps, join_wait, join_update, exited, exit_sleeps, exit_wait, exit_update, remove,
}
use nachos_project_2_os_subj.PTable.Slots.{Runs, process_at-Runs, put_self, put_other}

-- A counter's mutex is free again after each use.
pub inc_lem :
    (a : Pcb) (thread : ℕ)
    → a.mutex ≡ semaphore 1
    → (a' : Pcb) × (inc_num_wait a thread ≡ ok a') × (a'.mutex ≡ semaphore 1)
unfolding inc_num_wait enter p v
inc_lem a thread e =
    let n : Option ℕ = elim a.numwait [ none ↦ none | some n ↦ some (u32 (n + 1)) ] in
    (record a { numwait = n; mutex = semaphore 1 }, rw e refl, refl)

pub dec_lem :
    (a : Pcb) (thread : ℕ)
    → a.mutex ≡ semaphore 1
    → (a' : Pcb) × (dec_num_wait a thread ≡ ok a') × (a'.mutex ≡ semaphore 1)
unfolding dec_num_wait enter p v
dec_lem a thread e =
    let n : Option ℕ = elim a.numwait [
      | none ↦ none
      | some n ↦ some (if slt 0 n then n - 1 else n)
    ] in
    (record a { numwait = n; mutex = semaphore 1 }, rw e refl, refl)

module _ (t : PTable) (id current : ℕ) (b : Pcb) (r : Runs t id b) where
  pub join_wait-asleep :
      (q : Semaphore)
      → p b.joinsem current ≡ ok (asleep q)
      → join_wait t id current ≡ ok (join_sleeps (put t id (some (record b { joinsem = q }))))
  unfolding join_wait
  join_wait-asleep q e = rw (process_at-Runs t id b r, e) refl

  pub join_wait-passed :
      (q : Semaphore)
      → p b.joinsem current ≡ ok (passed q)
      → join_wait t id current
        ≡ ok (
            joined
              (put t id (some (record b { joinsem = q; exitsem = (v b.exitsem).0 })))
              b.exitcode
              (v b.exitsem).1)
  unfolding join_wait
  join_wait-passed q e = rw (process_at-Runs t id b r, e) refl

  pub join_update_lem :
      (a a' : Pcb)
      → id < max_process
      → b.parent_id ≡ some current
      → Runs t current a
      → inc_num_wait a current ≡ ok a'
      → join_update t id current ≡ join_wait (put t current (some a')) id current
  unfolding join_update
  join_update_lem a a' l parent ra e =
      let positive : slt id 0 ≡ false = ground arith in
      let below : slt id max_process ≡ true = ground arith in
      let self : (current == current) ≡ true = ground arith in
      rw (positive, below, r, parent, self, process_at-Runs t current a ra, e) refl

module _ (t : PTable) (current : ℕ) (b : Pcb) (r : Runs t current b) where
  pub exit_wait-asleep :
      (q : Semaphore)
      → p b.exitsem current ≡ ok (asleep q)
      → exit_wait t current ≡ ok (exit_sleeps (put t current (some (record b { exitsem = q }))))
  unfolding exit_wait
  exit_wait-asleep q e = rw (process_at-Runs t current b r, e) refl

  pub exit_wait-passed :
      (q : Semaphore)
      → p b.exitsem current ≡ ok (passed q)
      → exit_wait t current
        ≡ ok (exited (put (put t current (some (record b { exitsem = q }))) current none))
  unfolding exit_wait remove
  exit_wait-passed q e = rw (process_at-Runs t current b r, e) refl

  pub exit_update_lem :
      (code parent : ℕ) (a a' : Pcb)
      → current ≢ 0
      → b.parent_id ≡ some parent
      → parent ≢ current
      → Runs t parent a
      → dec_num_wait a current ≡ ok a'
      → (t' : PTable) × Runs t' current
          (record b { exitcode = some code; joinsem = (v b.joinsem).0 })
        × Runs t' parent a'
        × (exit_update t code current ≡ (exit_wait t' current >>= λ e. ok ((v b.joinsem).1, e)))
  unfolding exit_update
  exit_update_lem code parent a a' nz e apart ra d =
      let b₁ = record b { exitcode = some code } in
      let t₁ = put t current (some b₁) in
      let t₂ = put t₁ parent (some a') in
      let b₂ = record b₁ { joinsem = (v b.joinsem).0 } in
      let r₁ : Runs t₁ current b₁ = put_self t current b (some b₁) r in
      let ra₁ : Runs t₁ parent a = put_other t current parent (some b₁) (λ q. apart (sym q)) ∙ ra in
      let r₂ : Runs t₂ current b₁ = put_other t₁ parent current (some a') apart ∙ r₁ in
      let ra₂ : Runs t₂ parent a' = put_self t₁ parent a (some a') ra₁ in
      let main : (current == 0) ≡ false = ground arith in
      (
        put t₂ current (some b₂),
        put_self t₂ current b₁ (some b₂) r₂,
        put_other t₂ current parent (some b₂) (λ q. apart (sym q)) ∙ ra₂,
        rw
            (
              main,
              process_at-Runs t current b r,
              ap deref e,
              process_at-Runs t₁ parent a ra₁,
              d,
              process_at-Runs t₂ current b₁ r₂,
            )
            refl,
      )
