-- ===== src/Lists/Reps.antt =====
-- What it means that linked elements hold a sequence of items, and an element put at either end.
use nachos_project_2_os_subj.Base.{
  ℕ, ◌+◌, ◌≡◌, ◌≢◌, ◌∙◌, refl, ap, sym, arith, ◌==◌, true, false, Bool-cases, inl, inr, List, [],
  ◌∷◌, ◌++◌, length, Option, none, some, ok,
}
use nachos_project_2_os_subj.Lists.{ListElement, LinkedList, store_element, link_last, link_first}
use nachos_project_2_os_subj.Lists.Chains.{
  member, Chain, stop, link, frame, last_of, member-last_of, extended,
}

-- The list holds the items `xs`, in order, in the elements at the addresses `ps`.
pub record Reps (l : LinkedList) (ps xs : List ℕ) : Type 0 where
  pub chain : Chain l.elements l.first ps xs
  pub last : l.last ≡ last_of ps
  pub num : l.num_in_list ≡ length xs

pub self_eq : (x : ℕ) → (x == x) ≡ true
self_eq x = ground arith

pub none-some : {A : Type 0} {a : A} → none ≢ some a
none-some e = cc

-- An address at which nothing lies is not in a chain.
pub unused :
    (f : ℕ → Option ListElement) (p : Option ℕ) (ps xs : List ℕ) (new : ℕ)
    → f new ≡ none
    → Chain f p ps xs
    → member new ps ≡ false
unfolding member
unused f _ _ _ new h stop = refl
unused f _ _ _ new h (link a x next ps xs e m c) = elim (Bool-cases (new == a)) [
  | inl same ↦ let q : new ≡ a = ground arith in cc
  | inr other ↦ rw other (unused f next ps xs new h c)
]

element_at :
    (f : ℕ → Option ListElement) (p : Option ℕ) (ps xs : List ℕ) (z : ℕ)
    → Chain f p ps xs
    → member z ps ≡ true
    → (e : ListElement) × (f z ≡ some e)
unfolding member
element_at f _ _ _ z stop h = cc
element_at f _ _ _ z (link a x next ps xs e m c) h = elim (Bool-cases (z == a)) [
  | inl same ↦ let q : z ≡ a = ground arith in (_, ap f q ∙ e)
  | inr other ↦ element_at f next ps xs z c (ground arith)
]

pub last_of-some : (p : ℕ) (ps : List ℕ) → (z : ℕ) × (last_of (p ∷ ps) ≡ some z)
unfolding last_of
last_of-some p [] = (p, refl)
last_of-some p (q ∷ ps) = last_of-some q ps

pub length-append : (xs : List ℕ) (x : ℕ) → length (xs ++ x ∷ []) ≡ length xs + 1
length-append [] x = refl
length-append (y ∷ xs) x = omega (arith, length-append xs x)

pub last_of-append : (ps : List ℕ) (p : ℕ) → last_of (ps ++ p ∷ []) ≡ some p
unfolding last_of
last_of-append [] p = refl
last_of-append (q ∷ []) p = refl
last_of-append (q ∷ r ∷ ps) p = last_of-append (r ∷ ps) p

-- What link_last leaves, before the count.
pub record Linked (l l' : LinkedList) (new : ℕ) (ps xs : List ℕ) : Type 0 where
  pub chain : Chain l'.elements l'.first ps xs
  pub last : l'.last ≡ some new
  pub num : l'.num_in_list ≡ l.num_in_list

pub link_last_lem :
    (l : LinkedList) (ps xs : List ℕ) (new item : ℕ)
    → Reps l ps xs
    → l.elements new ≡ none
    → (l' : LinkedList) × (link_last l new item ≡ ok l')
      × Linked l l' new (ps ++ new ∷ []) (xs ++ item ∷ [])
unfolding link_last member last_of
link_last_lem l ps xs new item r free = by_chain l.first ps xs r.chain refl r.last r.num
  where
    by_chain :
        (p : Option ℕ) (ps xs : List ℕ)
        → Chain l.elements p ps xs
        → l.first ≡ p
        → l.last ≡ last_of ps
        → l.num_in_list ≡ length xs
        → (l' : LinkedList) × (link_last l new item ≡ ok l')
          × Linked l l' new (ps ++ new ∷ []) (xs ++ item ∷ [])
    by_chain _ _ _ stop f last num =
        let g = store_element l.elements new (some (record { item = item; next = none })) in
        let gn : g new ≡ some (record { item = item; next = none }) = ground arith in
        (
          record l { elements = g; first = some new; last = some new },
          rw num refl,
          record { chain = link new item none [] [] gn refl stop; last = refl; num = refl },
        )
    by_chain _ _ _ (link a x next ps xs e m c) f last num =
        let c' : Chain l.elements (some a) (a ∷ ps) (x ∷ xs) = link a x next ps xs e m c in
        let (z, zl) = last_of-some a ps in
        let zm = member-last_of (a ∷ ps) z zl in
        let (ez, fz) = element_at l.elements (some a) (a ∷ ps) (x ∷ xs) z c' zm in
        let n = unused l.elements (some a) (a ∷ ps) (x ∷ xs) new free c' in
        let apart : new ≢ z = λ q. none-some (sym free ∙ ap l.elements q ∙ fz) in
        let g₁ = store_element l.elements new (some (record { item = item; next = none })) in
        let g = store_element g₁ z (some (record ez { next = some new })) in
        let g₁z : g₁ z ≡ some ez = ground (arith, fz) in
        let gz : g z ≡ some (record ez { next = some new }) = ground arith in
        let gn : g new ≡ some (record { item = item; next = none }) = ground arith in
        let same : (b : ℕ) → member b (a ∷ ps) ≡ true → b ≢ z → g b ≡ l.elements b =
          λ b h k. let nb : new ≢ b = λ q. cc in ground arith in
        let nonempty : (l.num_in_list == 0) ≡ false = ground arith in
        (
          record l { elements = g; last = some new },
          rw (nonempty, last ∙ zl, g₁z) refl,
          record {
            chain = rw f (
                extended l.elements g (some a) (a ∷ ps) (x ∷ xs) z new item ez c' zl fz n gz gn
                  same);
            last = refl;
            num = refl;
          },
        )

pub link_first_lem :
    (l : LinkedList) (ps xs : List ℕ) (new item : ℕ)
    → Reps l ps xs
    → l.elements new ≡ none
    → Reps
        (record (link_first l new item) { num_in_list = (link_first l new item).num_in_list + 1 })
        (new ∷ ps)
        (item ∷ xs)
unfolding link_first member last_of
link_first_lem l ps xs new item r free = by_chain l.first ps xs r.chain refl r.last r.num
  where
    by_chain :
        (p : Option ℕ) (ps xs : List ℕ)
        → Chain l.elements p ps xs
        → l.first ≡ p
        → l.last ≡ last_of ps
        → l.num_in_list ≡ length xs
        → Reps
            (record (link_first l new item) {
              num_in_list = (link_first l new item).num_in_list + 1;
            })
            (new ∷ ps)
            (item ∷ xs)
    by_chain _ _ _ stop f last num =
        let empty : (l.num_in_list == 0) ≡ true = ground arith in
        let g = store_element l.elements new (some (record { item = item; next = none })) in
        let gn : g new ≡ some (record { item = item; next = none }) = ground arith in
        rw empty (record {
          chain = link new item none [] [] gn refl stop;
          last = refl;
          num = omega (arith, num);
        })
    by_chain _ _ _ (link a x next ps xs e m c) f last num =
        let c' : Chain l.elements (some a) (a ∷ ps) (x ∷ xs) = link a x next ps xs e m c in
        let n = unused l.elements (some a) (a ∷ ps) (x ∷ xs) new free c' in
        let nonempty : (l.num_in_list == 0) ≡ false = ground arith in
        let g = store_element l.elements new (some (record { item = item; next = l.first })) in
        let gn : g new ≡ some (record { item = item; next = l.first }) = ground arith in
        let gn' = gn ∙ ap (λ y. some (record { item = item; next = y })) f in
        let same : (b : ℕ) → member b (a ∷ ps) ≡ true → g b ≡ l.elements b =
          λ b h. let nb : new ≢ b = λ q. cc in ground arith in
        rw nonempty (record {
          chain =
              link new item (some a) (a ∷ ps) (x ∷ xs) gn' n
                (frame l.elements g (some a) (a ∷ ps) (x ∷ xs) same c');
          last = last;
          num = omega (arith, num);
        })
