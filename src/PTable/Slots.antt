-- ===== src/PTable/Slots.antt =====
-- The processes of the table by number.
use nachos_project_2_os_subj.Base.{
  ℕ, zero, suc, arith, List, [], ◌∷◌, ◌<◌, ◌≡◌, ◌≢◌, refl, Option, some, ok, get_elem?,
  get_elem?-set_self, get_elem?-set_ne, length,
}
use nachos_project_2_os_subj.PTable.{Pcb, PTable, process_at, put}

-- The process of number `i` is `b`.
abbrev pub Runs : PTable → ℕ → Pcb → Type 0
Runs t i b = get_elem? t.pcb i ≡ some (some b)

pub process_at-Runs : (t : PTable) (i : ℕ) (b : Pcb) → Runs t i b → process_at t i ≡ ok b
unfolding process_at
process_at-Runs t i b r = rw r refl

pub Runs-bound :
    (xs : List (Option Pcb)) (i : ℕ) {x : Option Pcb} → get_elem? xs i ≡ some x → i < length xs
Runs-bound [] i e = cc
Runs-bound (x ∷ xs) zero e = omega arith
Runs-bound (x ∷ xs) (suc i) e = omega (arith, Runs-bound xs i e)

-- A slot that is written, and the others.
pub put_self :
    (t : PTable) (i : ℕ) (b : Pcb) (slot : Option Pcb)
    → Runs t i b
    → get_elem? (put t i slot).pcb i ≡ some slot
put_self t i b slot r = get_elem?-set_self t.pcb i slot (Runs-bound t.pcb i r)

pub put_other :
    (t : PTable) (i j : ℕ) (slot : Option Pcb)
    → i ≢ j
    → get_elem? (put t i slot).pcb j ≡ get_elem? t.pcb j
put_other t i j slot n = get_elem?-set_ne t.pcb i j slot n
