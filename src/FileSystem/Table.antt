-- ===== src/FileSystem/Table.antt =====
-- The free entry of the table of open files that isFull finds.
use nachos_project_2_os_subj.Base.{
  ℕ, zero, suc, ◌+◌, ◌<◌, ◌≡◌, ◌≢◌, refl, arith, List, [], ◌∷◌, Option, none, some, get_elem?,
  minus_one, ◌⊎◌, inl, inr,
}
use nachos_project_2_os_subj.FileSystem.{OpenFile, Files, free_from, is_full}

-- The entry `j` is the first of the slots that is free.
pub record IsFirstFree (slots : List (Option OpenFile)) (j : ℕ) : Type 0 where
  pub free : get_elem? slots j ≡ some none
  pub used : (k : ℕ) → k < j → get_elem? slots k ≢ some none

-- No entry is free.
pub IsFull : List (Option OpenFile) → Type 0
IsFull slots = (k : ℕ) → get_elem? slots k ≢ some none

used_first :
    (f : OpenFile) (slots : List (Option OpenFile)) (j : ℕ)
    → IsFirstFree slots j
    → IsFirstFree (some f ∷ slots) (suc j)
used_first f slots j h = record {
  free = h.free;
  used = λ k. elim k as (λ k. k < suc j → get_elem? (some f ∷ slots) k ≢ some none) [
    | zero ↦ λ l e. cc
    | suc k ↦ λ l. h.used k (omega arith)
  ];
}

IsFull-suc :
    (f : OpenFile) (slots : List (Option OpenFile)) → IsFull slots → IsFull (some f ∷ slots)
unfolding IsFull
IsFull-suc f slots h zero e = cc
IsFull-suc f slots h (suc k) e = h k e

free_from_cases :
    (slots : List (Option OpenFile)) (i : ℕ)
    → ((free_from slots i ≡ minus_one) × IsFull slots)
      ⊎ ((j : ℕ) × (free_from slots i ≡ i + j) × IsFirstFree slots j)
unfolding free_from IsFull
free_from_cases [] i = inl (refl, λ k e. cc)
free_from_cases (none ∷ slots) i =
    inr (0, omega arith, record { free = refl; used = λ k l. elim l [ ] })
free_from_cases (some f ∷ slots) i = elim (free_from_cases slots (i + 1)) [
  | inl (e, full) ↦ inl (e, IsFull-suc f slots full)
  | inr (j, e, first) ↦ inr (suc j, omega (arith, e), used_first f slots j first)
]

-- isFull gives -1 where no entry of the table of open files is free, and otherwise the number of
-- the first free entry.
is_full_cases :
    (fs : Files)
    → ((is_full fs ≡ minus_one) × IsFull fs.openfile)
      ⊎ ((id : ℕ) × (is_full fs ≡ id) × IsFirstFree fs.openfile id)
unfolding is_full
is_full_cases fs = elim (free_from_cases fs.openfile 0) [
  | inl full ↦ inl full
  | inr (j, e, first) ↦ inr (j, omega (arith, e), first)
]
