-- ===== src/Lists/Implements.antt =====
-- The operations on linked elements against those on a sequence of items.
use nachos_project_2_os_subj.Base.{
  ℕ, ◌+◌, ◌≡◌, ◌∙◌, refl, sym, arith, true, false, Bool-cases, ◌⊎◌, inl, inr, List, [], ◌∷◌, ◌++◌,
  length, none, ok, err, assert_failed, if◌then◌else◌,
}
use nachos_project_2_os_subj.Lists.{
  LinkedList, is_in_list, append, remove_front, prepend, link_first, remove,
}
use nachos_project_2_os_subj.Lists.Chains.{member, is_in_chain_lem, member-append}
use nachos_project_2_os_subj.Lists.Front.{Shortened, front}
use nachos_project_2_os_subj.Lists.Removal.{erase}
use nachos_project_2_os_subj.Lists.Erase.{remove_lem}
use nachos_project_2_os_subj.Lists.Reps.{
  Reps, length-append, last_of-append, link_last_lem, link_first_lem, self_eq,
}

append_lem :
    (l : LinkedList) (ps xs : List ℕ) (new item : ℕ)
    → Reps l ps xs
    → l.elements new ≡ none
    → ((member item xs ≡ true) × (append l new item ≡ err assert_failed))
      ⊎ ((member item xs ≡ false)
          × (l' : LinkedList) × (append l new item ≡ ok l')
          × Reps l' (ps ++ new ∷ []) (xs ++ item ∷ []))
unfolding append is_in_list member
append_lem l ps xs new item r free =
    let before =
      is_in_chain_lem l.elements l.first ps xs item l.num_in_list (omega (arith, r.num)) r.chain in
    elim (Bool-cases (member item xs)) [
      | inl there ↦ inl (there, rw (before, there) refl)
      | inr absent ↦
          let (l₁, linked, q) = link_last_lem l ps xs new item r free in
          let l₂ : LinkedList = record l₁ { num_in_list = l₁.num_in_list + 1 } in
          let counted : l₂.num_in_list ≡ length (xs ++ item ∷ []) =
            omega (arith, q.num, r.num, length-append xs item) in
          let now =
            is_in_chain_lem l₁.elements l₁.first (ps ++ new ∷ []) (xs ++ item ∷ []) item
              l₂.num_in_list (omega (arith, counted)) q.chain in
          inr (
            absent,
            l₂,
            rw (before, absent, linked, now, member-append item xs item, absent, self_eq item) refl,
            record { chain = q.chain; last = q.last ∙ sym (last_of-append ps new); num = counted },
          )
    ]

prepend_lem :
    (l : LinkedList) (ps xs : List ℕ) (new item : ℕ)
    → Reps l ps xs
    → l.elements new ≡ none
    → ((member item xs ≡ true) × (prepend l new item ≡ err assert_failed))
      ⊎ ((member item xs ≡ false)
          × (l' : LinkedList) × (prepend l new item ≡ ok l')
          × Reps l' (new ∷ ps) (item ∷ xs))
unfolding prepend is_in_list member
prepend_lem l ps xs new item r free =
    let before =
      is_in_chain_lem l.elements l.first ps xs item l.num_in_list (omega (arith, r.num)) r.chain in
    elim (Bool-cases (member item xs)) [
      | inl there ↦ inl (there, rw (before, there) refl)
      | inr absent ↦
          let q = link_first_lem l ps xs new item r free in
          let l₁ = link_first l new item in
          let now =
            is_in_chain_lem l₁.elements l₁.first (new ∷ ps) (item ∷ xs) item (l₁.num_in_list + 1)
              (omega (arith, q.num)) q.chain in
          inr (
            absent,
            record l₁ { num_in_list = l₁.num_in_list + 1 },
            rw (before, absent, now, self_eq item) refl,
            record { chain = q.chain; last = q.last; num = q.num },
          )
    ]

-- A list whose linked elements hold a sequence of items implements the sequence: IsInList tells
-- whether the item is in it; Append of an item that is in it fails the assertion, and of another
-- one, with an element at an unused address, adds it at the end, and Prepend likewise at the front;
-- RemoveFront of an empty list fails the assertion, and otherwise gives the first item and leaves
-- the others; Remove of an item that is not in it fails the assertion, and of another one takes the
-- first that equals it out, and fails the last assertion where one more is left.
pub list_implements :
    (l : LinkedList) (ps xs : List ℕ) (new item : ℕ)
    → Reps l ps xs
    → l.elements new ≡ none
    → (is_in_list l item ≡ ok (member item xs))
      × (((member item xs ≡ true) × (append l new item ≡ err assert_failed))
          ⊎ ((member item xs ≡ false)
              × (l' : LinkedList) × (append l new item ≡ ok l')
              × Reps l' (ps ++ new ∷ []) (xs ++ item ∷ [])))
      × (((member item xs ≡ true) × (prepend l new item ≡ err assert_failed))
          ⊎ ((member item xs ≡ false)
              × (l' : LinkedList) × (prepend l new item ≡ ok l')
              × Reps l' (new ∷ ps) (item ∷ xs)))
      × (((xs ≡ []) × (remove_front l ≡ err assert_failed))
          ⊎ ((x : ℕ) × (xs' : List ℕ) × (ps' : List ℕ) × (xs ≡ x ∷ xs')
              × (l' : LinkedList) × (remove_front l ≡ ok (l', x))
              × Reps l' ps' xs'))
      × (((member item xs ≡ false) × (remove l item ≡ err assert_failed))
          ⊎ ((member item xs ≡ true)
              × (l' : LinkedList) × (ps' : List ℕ) × Reps l' ps' (erase item xs)
              × (remove l item
                  ≡ (if member item (erase item xs) then err assert_failed else ok l'))))
unfolding is_in_list Shortened
list_implements l ps xs new item r free = (
  is_in_chain_lem l.elements l.first ps xs item l.num_in_list (omega (arith, r.num)) r.chain,
  append_lem l ps xs new item r free,
  prepend_lem l ps xs new item r free,
  front l l.first ps xs r.chain refl r.last r.num,
  remove_lem l ps xs item r,
)
