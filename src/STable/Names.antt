-- ===== src/STable/Names.antt =====
-- The table as a map from names to semaphores.
use nachos_project_2_os_subj.Base.{
  ℕ, zero, suc, ◌+◌, ◌<◌, ◌≡◌, ◌∙◌, refl, ap, arith, true, [], ◌∷◌, Option, none, some, ◌⊎◌, inl,
  inr, ◌≢◌, ◌↔◌, if◌then◌else◌, get_elem?, set, length, minus_one, Bool-cases,
}
use nachos_project_2_os_subj.Synch.{Semaphore}
use nachos_project_2_os_subj.STable.{CString, same_string, Sem, STable, find_name, find_free}

-- The semaphore that a name stands for: the first of that name.
pub lookup : STable → CString → Option Semaphore
lookup [] name = none
lookup (none ∷ slots) name = lookup slots name
lookup (some s ∷ slots) name = if same_string s.name name then some s.sem else lookup slots name

pub same_string_iff : (a b : CString) → (same_string a b ≡ true) ↔ (a ≡ b)
unfolding same_string
same_string_iff [] [] = ((λ e. refl), (λ e. refl))
same_string_iff [] (y ∷ ys) = ((λ e. cc), (λ e. cc))
same_string_iff (x ∷ xs) [] = ((λ e. cc), (λ e. cc))
same_string_iff (x ∷ xs) (y ∷ ys) =
    let ih = same_string_iff xs ys in ((λ e. ground (arith, ih.0)), (λ e. ground (arith, ih.1)))

pub same_string_refl : (a : CString) → same_string a a ≡ true
same_string_refl a = (same_string_iff a a).1 refl

-- Where a name is found, and that it is found exactly when it stands for a semaphore.
pub find_name_lem :
    (t : STable) (name : CString) (i : ℕ)
    → ((find_name t name i ≡ none) × (lookup t name ≡ none))
      ⊎ ((k : ℕ) × (s : Sem) × (find_name t name i ≡ some (i + k))
          × (k < length t)
          × (get_elem? t k ≡ some (some s))
          × (lookup t name ≡ some s.sem)
          × (s.name ≡ name))
unfolding find_name lookup
find_name_lem [] name i = inl (refl, refl)
find_name_lem (none ∷ t) name i = elim (find_name_lem t name (i + 1)) [
  | inl (a, b) ↦ inl (a, b)
  | inr (k, s, a, l, g, b, n) ↦ inr (suc k, s, a ∙ ap some (omega arith), omega arith, g, b, n)
]
find_name_lem (some x ∷ t) name i = elim (Bool-cases (same_string x.name name)) [
  | inl e ↦ inr (
    0,
    x,
    rw e (ap some (omega arith)),
    omega arith,
    refl,
    rw e,
    (same_string_iff x.name name).0 e,
  )
  | inr e ↦ elim (find_name_lem t name (i + 1)) [
    | inl (a, b) ↦ inl (rw e a, rw e b)
    | inr (k, s, a, l, g, b, n) ↦
        inr (suc k, s, rw e (a ∙ ap some (omega arith)), omega arith, g, rw e b, n)
  ]
]

taken_cons :
    (x : Sem) (t : STable)
    → ((k : ℕ) → k < length t → get_elem? t k ≢ some none)
    → (k : ℕ) → k < suc (length t)
    → get_elem? {A = Option Sem} (some x ∷ t) k ≢ some none
taken_cons x t b zero l e = cc
taken_cons x t b (suc k) l e = b k (omega arith) e

-- The slot that FindFreeSlot gives is free; -1 means that none is.
pub find_free_lem :
    (t : STable) (i : ℕ)
    → ((find_free t i ≡ minus_one) × ((k : ℕ) → k < length t → get_elem? t k ≢ some none))
      ⊎ ((k : ℕ) × (find_free t i ≡ i + k) × (k < length t) × (get_elem? t k ≡ some none))
unfolding find_free
find_free_lem [] i = inl (refl, λ k l e. cc)
find_free_lem (none ∷ t) i = inr (0, omega arith, omega arith, refl)
find_free_lem (some x ∷ t) i = elim (find_free_lem t (i + 1)) [
  | inl (a, b) ↦ inl (a, taken_cons x t b)
  | inr (k, a, l, g) ↦ inr (suc k, a ∙ omega arith, omega arith, g)
]

-- A semaphore put into a free slot, under a name that none had.
pub lookup-set_free :
    (t : STable) (k : ℕ) (s : Sem) (name : CString)
    → get_elem? t k ≡ some none
    → lookup t s.name ≡ none
    → lookup (set t k (some s)) name
      ≡ (if same_string s.name name then some s.sem else lookup t name)
unfolding lookup
lookup-set_free [] k s name g e = cc
lookup-set_free (none ∷ t) zero s name g e = refl
lookup-set_free (some x ∷ t) zero s name g e = cc
lookup-set_free (none ∷ t) (suc k) s name g e = lookup-set_free t k s name g e
lookup-set_free (some x ∷ t) (suc k) s name g e = elim (Bool-cases (same_string x.name s.name)) [
  | inl same ↦ cc (rw same at e)
  | inr other ↦ ground (
    arith,
    lookup-set_free t k s name g (rw other at e),
    same_string_iff x.name name,
    same_string_iff s.name name,
    same_string_iff x.name s.name,
  )
]

here_not_later : (i k : ℕ) → some i ≡ some (i + suc k) → ⊥
here_not_later i k e = ground arith

-- A semaphore changed in place, where it is the first of its name.
pub lookup-set_same :
    (t : STable) (k i : ℕ) (s : Sem) (q : Semaphore) (name : CString)
    → get_elem? t k ≡ some (some s)
    → find_name t s.name i ≡ some (i + k)
    → lookup (set t k (some (record s { sem = q }))) name
      ≡ (if same_string s.name name then some q else lookup t name)
unfolding lookup find_name
lookup-set_same [] k i s q name g e = cc
lookup-set_same (none ∷ t) zero i s q name g e = cc
lookup-set_same (some x ∷ t) zero i s q name g e = ground arith
lookup-set_same (none ∷ t) (suc k) i s q name g e =
    lookup-set_same t k (i + 1) s q name g (e ∙ ap some (omega arith))
lookup-set_same (some x ∷ t) (suc k) i s q name g e =
    elim (Bool-cases (same_string x.name s.name)) [
      | inl same ↦ absurd (here_not_later i k (rw same at e))
      | inr other ↦ ground (
        arith,
        lookup-set_same t k (i + 1) s q name g (rw other at e ∙ ap some (omega arith)),
        same_string_iff x.name name,
        same_string_iff s.name name,
        same_string_iff x.name s.name,
      )
    ]
