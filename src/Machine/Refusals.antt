-- ===== src/Machine/Refusals.antt =====
-- The exception of a refused access goes by the page table, not by the rest of the machine.
use nachos_project_2_os_subj.Base.{
  ℕ, ◌/◌, ◌≡◌, ◌∙◌, refl, ap, sym, Bool, true, false, ◌&&◌, Bool-cases, inl, inr, List, Option,
  none, some, Result, ok, err, ◌>>=◌, ◌>>◌, assert, ok-injective, leb,
}
use nachos_project_2_os_subj.Machine.{
  Machine, ExceptionType, TranslationEntry, page_size, num_phys_pages,
}
use nachos_project_2_os_subj.Machine.Translate.{
  Lookup, miss, hit, Translated, raised, placed, misaligned, find_entry, place, translate,
}
use nachos_project_2_os_subj.Machine.Bounds.{IsPaged, Refused}

some-injective : {A : Type 0} {a b : A} → some a ≡ some b → a ≡ b
some-injective e = cc

-- What is raised, if anything is.
exception_of : Translated → Option ExceptionType
exception_of (raised which) = some which
exception_of (placed a m) = none

exception_in : Result Translated → Result (Option ExceptionType)
exception_in r = r >>= λ t. ok (exception_of t)

assert_same :
    (b : Bool) (x : ℕ) (m₁ m₂ : Machine)
    → exception_in (assert b >> ok (placed x m₁)) ≡ exception_in (assert b >> ok (placed x m₂))
unfolding exception_in exception_of
assert_same true x m₁ m₂ = refl
assert_same false x m₁ m₂ = refl

module _ (m₁ m₂ : Machine) (a s : ℕ) (w : Bool) where
  place_same :
      (i : ℕ) (e : TranslationEntry)
      → exception_in (place m₁ a s w i e) ≡ exception_in (place m₂ a s w i e)
  unfolding place exception_in exception_of
  place_same i e = elim (Bool-cases (e.read_only && w)) [
    | inl refused ↦ rw refused refl
    | inr writable ↦ elim (Bool-cases (leb num_phys_pages e.physical_page)) [
      | inl beyond ↦ rw (writable, beyond) refl
      | inr framed ↦ rw (writable, framed) (assert_same _ _ _ _)
    ]
  ]

  found_same :
      (r : Result Lookup)
      → exception_in (
          r >>= λ found. elim found [
            | miss which ↦ ok (raised which)
            | hit i entry ↦ place m₁ a s w i entry
          ])
        ≡ exception_in (
            r >>= λ found. elim found [
              | miss which ↦ ok (raised which)
              | hit i entry ↦ place m₂ a s w i entry
            ])
  unfolding exception_in
  found_same (err fault) = refl
  found_same (ok (miss which)) = refl
  found_same (ok (hit i e)) = place_same i e

  translate_same :
      find_entry m₁ (a / page_size) ≡ find_entry m₂ (a / page_size)
      → exception_in (translate m₁ a s w) ≡ exception_in (translate m₂ a s w)
  unfolding translate
  translate_same same = elim (Bool-cases (misaligned a s)) [
    | inl odd ↦ rw odd refl
    | inr aligned ↦ rw (aligned, same) (found_same (find_entry m₂ (a / page_size)))
  ]

find_entry_same :
    {m₁ m₂ : Machine} {table : List TranslationEntry}
    → IsPaged m₁ table
    → IsPaged m₂ table
    → (vpn : ℕ) → find_entry m₁ vpn ≡ find_entry m₂ vpn
unfolding find_entry
find_entry_same p q vpn = rw (p.no_tlb, p.paged, p.sized, q.no_tlb, q.paged, q.sized) refl

-- Two machines with one page table refuse an access with one exception.
pub Refused-same :
    {m₁ m₂ : Machine} {table : List TranslationEntry} (p : IsPaged m₁ table) (q : IsPaged m₂ table)
    (a s : ℕ) (w : Bool) (r₁ : Refused p a s w) (r₂ : Refused q a s w)
    → r₁.0 ≡ r₂.0
unfolding exception_in exception_of
Refused-same {m₁} {m₂} p q a s w r₁ r₂ =
    let same = translate_same m₁ m₂ a s w (find_entry_same p q (a / page_size)) in
    let one : exception_in (translate m₁ a s w) ≡ ok (some r₁.0) = ap exception_in r₁.2 in
    let two : exception_in (translate m₂ a s w) ≡ ok (some r₂.0) = ap exception_in r₂.2 in
    some-injective (ok-injective (sym one ∙ same ∙ two))
