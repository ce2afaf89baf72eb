-- ===== src/Lists/Chains.antt =====
-- The linked elements implement a sequence of items.
use nachos_project_2_os_subj.Base.{
  ℕ, zero, suc, ◌≤◌, ◌≡◌, ◌≢◌, ◌∙◌, refl, ap, sym, arith, ◌==◌, Bool, true, false, ◌||◌, Bool-cases,
  inl, inr, List, [], ◌∷◌, ◌++◌, length, Option, none, some, Result, ok,
}
use nachos_project_2_os_subj.Lists.{ListElement, is_in_chain}

unfoldable pub member : ℕ → List ℕ → Bool
member x [] = false
member x (y ∷ ys) = x == y || member x ys

-- From the address on, elements at the addresses `ps` that hold the items `xs`, none of them twice.
pub data Chain (elements : ℕ → Option ListElement) : Option ℕ → List ℕ → List ℕ → Type 0 where
  stop : Chain elements none [] []
  link :
      (a x : ℕ) (next : Option ℕ) (ps xs : List ℕ)
      → elements a ≡ some (record { item = x; next = next })
      → member a ps ≡ false
      → Chain elements next ps xs
      → Chain elements (some a) (a ∷ ps) (x ∷ xs)

pub frame :
    (f g : ℕ → Option ListElement) (p : Option ℕ) (ps xs : List ℕ)
    → ((b : ℕ) → member b ps ≡ true → g b ≡ f b)
    → Chain f p ps xs
    → Chain g p ps xs
unfolding member
frame f g _ _ _ same stop = stop
frame f g _ _ _ same (link a x next ps xs e m c) =
    link a x next ps xs (same a (ground arith) ∙ e) m
      (frame f g next ps xs (λ b h. same b (ground (arith, h))) c)

found_or :
    (b : Bool) (r : Result Bool) (m : Bool)
    → r ≡ ok m
    → (elim b [ true ↦ ok true | false ↦ r ]) ≡ ok (b || m)
found_or true r m h = refl
found_or false r m h = h

pub is_in_chain_lem :
    (f : ℕ → Option ListElement) (p : Option ℕ) (ps xs : List ℕ) (item fuel : ℕ)
    → length xs ≤ fuel
    → Chain f p ps xs
    → is_in_chain fuel f p item ≡ ok (member item xs)
unfolding is_in_chain member
is_in_chain_lem f _ _ _ item fuel h stop = refl
is_in_chain_lem f _ _ _ item zero h (link a x next ps xs e m c) = elim h [ ]
is_in_chain_lem f _ _ _ item (suc fuel) h (link a x next ps xs e m c) =
    rw e (found_or (item == x) _ _ (is_in_chain_lem f next ps xs item fuel (omega arith) c))

pub some-injective : {A : Type 0} {a b : A} → some a ≡ some b → a ≡ b
some-injective e = cc

-- The last of some addresses.
unfoldable pub last_of : List ℕ → Option ℕ
last_of [] = none
last_of (p ∷ []) = some p
last_of (p ∷ q ∷ ps) = last_of (q ∷ ps)

-- A chain with one more element at its end.
pub member-append :
    (x : ℕ) (xs : List ℕ) (y : ℕ) → member x (xs ++ y ∷ []) ≡ (member x xs || x == y)
unfolding member
member-append x [] y = ground arith
member-append x (z ∷ xs) y = elim (Bool-cases (x == z)) [
  | inl e ↦ rw e refl
  | inr n ↦ rw n (member-append x xs y)
]

pub member-last_of : (ps : List ℕ) (z : ℕ) → last_of ps ≡ some z → member z ps ≡ true
unfolding member last_of
member-last_of [] z l = cc
member-last_of (p ∷ []) z l = let e : p ≡ z = some-injective l in ground arith
member-last_of (p ∷ q ∷ ps) z l = let h = member-last_of (q ∷ ps) z l in ground arith

pub extended :
    (f g : ℕ → Option ListElement) (p : Option ℕ) (ps xs : List ℕ) (z new item : ℕ)
    (ez : ListElement)
    → Chain f p ps xs
    → last_of ps ≡ some z
    → f z ≡ some ez
    → member new ps ≡ false
    → g z ≡ some (record ez { next = some new })
    → g new ≡ some (record { item = item; next = none })
    → ((b : ℕ) → member b ps ≡ true → b ≢ z → g b ≡ f b)
    → Chain g p (ps ++ new ∷ []) (xs ++ item ∷ [])
unfolding member last_of
extended f g _ _ _ z new item ez stop l fz n gz gn same = cc
extended f g _ _ _ z new item ez (link a x next _ _ e m stop) l fz n gz gn same =
    let at_end : a ≡ z = some-injective l in
    let here : g a ≡ some (record { item = x; next = some new }) =
      ap g at_end
      ∙ gz
      ∙ ap (λ i. some (record { item = i; next = some new }))
          (ap (λ (w : ListElement). w.item) (some-injective (sym fz ∙ ap f (sym at_end) ∙ e))) in
    let apart : member a (new ∷ []) ≡ false = ground (arith, n) in
    link a x (some new) (new ∷ []) (item ∷ []) here apart (link new item none [] [] gn refl stop)
extended f g _ _ _ z new item ez (link a x next _ _ e m (link b y next' qs ys e' m' c)) l fz n gz gn
      same =
    let before : a ≢ z = λ q. ground (arith, member-last_of (b ∷ qs) z l) in
    let here : g a ≡ some (record { item = x; next = some b }) = same a (ground arith) before ∙ e in
    let apart : member a (b ∷ qs ++ new ∷ []) ≡ false =
      rw (member-append a (b ∷ qs) new, m) (ground (arith, n)) in
    let rest =
      extended f g (some b) (b ∷ qs) (y ∷ ys) z new item ez (link b y next' qs ys e' m' c) l fz
        (ground (arith, n)) gz gn (λ d h k. same d (ground (arith, h)) k) in
    link a x (some b) _ _ here apart rest
