-- ===== src/Lists/Erase.antt =====
-- Remove takes the first of an item out of the sequence that the elements hold.
use nachos_project_2_os_subj.Base.{
  ℕ, ◌+◌, ◌≡◌, ◌∙◌, refl, ap, sym, arith, ◌==◌, true, false, Bool-cases, ◌⊎◌, inl, inr, List, [],
  ◌∷◌, length, Option, some, ok, err, assert_failed, bind_ok, deref, if◌then◌else◌, assert, not,
  Bool, ◌>>◌,
}
use nachos_project_2_os_subj.Lists.{
  ListElement, LinkedList, remove, take_out, is_in_list, remove_front, remove_behind,
}
use nachos_project_2_os_subj.Lists.Chains.{member, Chain, stop, link, is_in_chain_lem, last_of}
use nachos_project_2_os_subj.Lists.Reps.{Reps}
use nachos_project_2_os_subj.Lists.Front.{Shortened, front}
use nachos_project_2_os_subj.Lists.Removal.{erase, remove_behind-Cut}

-- The list with the item taken out, before the last assertion.
record Taken (l : LinkedList) (xs : List ℕ) (item : ℕ) : Type 0 where
  at : ℕ
  element : ListElement
  first : l.first ≡ some at
  found : l.elements at ≡ some element
  left : LinkedList
  places : List ℕ
  reps : Reps left places (erase item xs)
  taken : take_out l at element item ≡ ok left

length-erase :
    (item : ℕ) (xs : List ℕ) → member item xs ≡ true → length xs ≡ length (erase item xs) + 1
unfolding member erase
length-erase item [] h = cc
length-erase item (x ∷ xs) h = elim (Bool-cases (item == x)) [
  | inl same ↦ rw same (omega arith)
  | inr other ↦ let rest = length-erase item xs (ground arith) in rw other (omega (arith, rest))
]

take_front :
    (l l' : LinkedList) (a : ℕ) (e : ListElement) (item y : ℕ)
    → (item == e.item) ≡ true
    → remove_front l ≡ ok (l', y)
    → (item == y) ≡ true
    → take_out l a e item ≡ ok l'
unfolding take_out
take_front l l' a e item y same r yx = rw (take_out, same) (bind_ok _ r (rw yx refl))

take_behind :
    (l l' : LinkedList) (a : ℕ) (e : ListElement) (item : ℕ)
    → (item == e.item) ≡ false
    → remove_behind l.num_in_list l a e.next item ≡ ok l'
    → take_out l a e item ≡ ok l'
unfolding take_out
take_behind l l' a e item other q = rw (take_out, other) q

take_out-Taken :
    (l : LinkedList) (p : Option ℕ) (ps xs : List ℕ) (item : ℕ)
    → Chain l.elements p ps xs
    → l.first ≡ p
    → l.last ≡ last_of ps
    → l.num_in_list ≡ length xs
    → member item xs ≡ true
    → Taken l xs item
unfolding take_out member erase Shortened
take_out-Taken l _ _ _ item stop f last num h = cc
take_out-Taken l _ _ _ item (link a x next ps xs e m c) f last num h =
    elim (Bool-cases (item == x)) [
      | inl same ↦
          elim (front l (some a) (a ∷ ps) (x ∷ xs) (link a x next ps xs e m c) f last num) [
            | inl (q, _) ↦ cc
            | inr (y, ys, places, q, l', r, reps) ↦
                let (xy, rest) : (x ≡ y) × (xs ≡ ys) = (cc, cc) in
                let yx : (item == y) ≡ true = ap (λ z. item == z) (sym xy) ∙ same in
                record {
                  at = a;
                  element = record { item = x; next = next };
                  first = f;
                  found = e;
                  left = l';
                  places = places;
                  reps = rw (same, rest) reps;
                  taken = take_front l l' a (record { item = x; next = next }) item y same r yx;
                }
          ]
      | inr other ↦
          let (l', q, cut) =
            remove_behind-Cut l l.num_in_list a x item next ps xs e m c last (omega (arith, num))
              (ground arith) in
          record {
            at = a;
            element = record { item = x; next = next };
            first = f;
            found = e;
            left = l';
            places = a ∷ cut.places;
            reps = rw other (record {
              chain = rw (cut.first ∙ f) cut.chain;
              last = cut.last;
              num = omega (arith, cut.num, num, length-erase item xs (ground arith));
            });
            taken = take_behind l l' a (record { item = x; next = next }) item other q;
          }
    ]

pub remove_lem :
    (l : LinkedList) (ps xs : List ℕ) (item : ℕ)
    → Reps l ps xs
    → ((member item xs ≡ false) × (remove l item ≡ err assert_failed))
      ⊎ ((member item xs ≡ true)
          × (l' : LinkedList) × (ps' : List ℕ) × Reps l' ps' (erase item xs)
          × (remove l item ≡ (if member item (erase item xs) then err assert_failed else ok l')))
unfolding remove is_in_list
remove_lem l ps xs item r =
    let before =
      is_in_chain_lem l.elements l.first ps xs item l.num_in_list (omega (arith, r.num)) r.chain in
    elim (Bool-cases (member item xs)) [
      | inl there ↦
          let t = take_out-Taken l l.first ps xs item r.chain refl r.last r.num there in
          let after =
            is_in_chain_lem t.left.elements t.left.first t.places (erase item xs) item
              t.left.num_in_list (omega (arith, t.reps.num)) t.reps.chain in
          inr (
            there,
            t.left,
            t.places,
            t.reps,
            bind_ok _ (before ∙ ap ok there) (
                bind_ok _ (ap deref t.first) (
                  bind_ok _ (ap deref t.found) (
                    bind_ok _ t.taken
                      (bind_ok _ after (checked (member item (erase item xs)) t.left))))),
          )
      | inr absent ↦ inl (absent, rw (before, absent) refl)
    ]
  where
    checked :
        (b : Bool) (l' : LinkedList)
        → (assert (not b) >> ok l') ≡ (if b then err assert_failed else ok l')
    checked true l' = refl
    checked false l' = refl
