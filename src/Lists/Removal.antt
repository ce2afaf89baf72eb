-- ===== src/Lists/Removal.antt =====
-- Remove takes the first element that holds the item out of the chain.
use nachos_project_2_os_subj.Base.{
  ℕ, zero, suc, ◌-◌, ◌≤◌, ◌≡◌, ◌≢◌, ◌∙◌, refl, ap, arith, ◌==◌, true, false, Bool-cases, inl, inr,
  List, [], ◌∷◌, length, Option, none, some, ok, bind_ok, deref, if◌then◌else◌,
}
use nachos_project_2_os_subj.Lists.{ListElement, LinkedList, store_element, unlink, remove_behind}
use nachos_project_2_os_subj.Lists.Chains.{member, Chain, stop, link, frame, last_of}

-- A sequence without the first `item` in it.
unfoldable pub erase : ℕ → List ℕ → List ℕ
erase item [] = []
erase item (x ∷ xs) = if item == x then xs else x ∷ erase item xs

-- The chain from `prev` on after an element behind it is taken out.
pub record Cut (l l' : LinkedList) (prev x : ℕ) (ps xs : List ℕ) : Type 0 where
  pub places : List ℕ
  pub chain : Chain l'.elements (some prev) (prev ∷ places) (x ∷ xs)
  pub last : l'.last ≡ last_of (prev ∷ places)
  pub num : l'.num_in_list ≡ l.num_in_list - 1
  pub first : l'.first ≡ l.first
  pub others : (b : ℕ) → member b (prev ∷ ps) ≡ false → l'.elements b ≡ l.elements b
  pub among : (b : ℕ) → member b ps ≡ false → member b places ≡ false

last_after :
    (f : ℕ → Option ListElement) (o : Option ℕ) (prev a : ℕ) (next : Option ℕ) (ps xs : List ℕ)
    → Chain f next ps xs
    → o ≡ last_of (prev ∷ a ∷ ps)
    → (elim next [ none ↦ some prev | some b ↦ o ]) ≡ last_of (prev ∷ ps)
unfolding last_of
last_after f o prev a _ _ _ stop h = refl
last_after f o prev a _ _ _ (link b x next ps xs e m c) h = h

apart : (x y : ℕ) (ps : List ℕ) → member x ps ≡ false → member y ps ≡ true → x ≢ y
apart x y ps m h q = cc

unlink-Cut :
    (l : LinkedList) (prev x a y : ℕ) (next : Option ℕ) (ps xs : List ℕ)
    → l.elements prev ≡ some (record { item = x; next = some a })
    → member prev (a ∷ ps) ≡ false
    → member a ps ≡ false
    → Chain l.elements next ps xs
    → l.last ≡ last_of (prev ∷ a ∷ ps)
    → (l' : LinkedList) × (unlink l prev a next ≡ ok l') × Cut l l' prev x (a ∷ ps) xs
unfolding unlink member last_of
unlink-Cut l prev x a y next ps xs e m n c last =
    let g₁ = store_element l.elements prev (some (record { item = x; next = next })) in
    let g = store_element g₁ a none in
    let here : g prev ≡ some (record { item = x; next = next }) =
      (let pa : (prev == a) ≡ false = ground arith in ground arith) in
    let beyond : member prev ps ≡ false = ground arith in
    let same : (b : ℕ) → member b ps ≡ true → g b ≡ l.elements b =
      λ b h. let pb = apart prev b ps beyond h in let ab = apart a b ps n h in ground arith in
    let outside : (b : ℕ) → member b (prev ∷ a ∷ ps) ≡ false → g b ≡ l.elements b =
      λ b h. ground arith in
    (
      _,
      rw e refl,
      record {
        places = ps;
        chain = link prev x next ps xs here beyond (frame l.elements g next ps xs same c);
        last = last_after l.elements l.last prev a next ps xs c last;
        num = refl;
        first = refl;
        others = outside;
        among = λ b h. ground arith;
      },
    )

pub remove_behind-Cut :
    (l : LinkedList) (fuel : ℕ) (prev x item : ℕ) (next : Option ℕ) (ps xs : List ℕ)
    → l.elements prev ≡ some (record { item = x; next = next })
    → member prev ps ≡ false
    → Chain l.elements next ps xs
    → l.last ≡ last_of (prev ∷ ps)
    → length xs ≤ fuel
    → member item xs ≡ true
    → (l' : LinkedList) × (remove_behind fuel l prev next item ≡ ok l')
      × Cut l l' prev x ps (erase item xs)
unfolding remove_behind member last_of erase
remove_behind-Cut l fuel prev x item _ _ _ e m stop last h k = cc
remove_behind-Cut l zero prev x item _ _ _ e m (link a y next ps xs f n c) last h k = elim h [ ]
remove_behind-Cut l (suc fuel) prev x item _ _ _ e m (link a y next ps xs f n c) last h k =
    elim (Bool-cases (item == y)) [
      | inl same ↦
          let (l', q, cut) = unlink-Cut l prev x a y next ps xs e m n c last in
          (l', bind_ok _ (ap deref f) (rw same q), rw same cut)
      | inr other ↦
          let (l', q, cut) =
            remove_behind-Cut l fuel a y item next ps xs f n c last (omega (arith, h))
              (ground arith) in
          let beyond : member prev (a ∷ cut.places) ≡ false =
            (let z = cut.among prev (ground arith) in ground arith) in
          (
            l',
            bind_ok _ (ap deref f) (rw other q),
            rw other (record {
              places = a ∷ cut.places;
              chain =
                  link prev x (some a) (a ∷ cut.places) (y ∷ erase item xs)
                    (cut.others prev (ground arith) ∙ e) beyond cut.chain;
              last = cut.last;
              num = cut.num;
              first = cut.first;
              others = λ b v. cut.others b (ground arith);
              among = λ b v. (let z = cut.among b (ground arith) in ground arith);
            }),
          )
    ]
