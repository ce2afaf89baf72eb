-- ===== src/Lists/Front.antt =====
-- RemoveFront takes the first element off the chain.
use nachos_project_2_os_subj.Base.{
  ℕ, ◌-◌, ◌≡◌, ◌≢◌, ◌∙◌, refl, arith, ◌==◌, true, false, ◌⊎◌, inl, inr, List, [], ◌∷◌, length,
  Option, none, some, ok, err, assert_failed,
}
use nachos_project_2_os_subj.Lists.{LinkedList, store_element, remove_front, unlink_first}
use nachos_project_2_os_subj.Lists.Chains.{
  member, Chain, stop, link, frame, last_of, member-last_of,
}
use nachos_project_2_os_subj.Lists.Reps.{Reps, last_of-some, self_eq}

-- The front of a sequence, taken off.
unfoldable pub Shortened : LinkedList → List ℕ → Type 0
Shortened l xs =
    (x : ℕ) × (xs' : List ℕ) × (ps' : List ℕ) × (xs ≡ x ∷ xs')
    × (l' : LinkedList) × (remove_front l ≡ ok (l', x))
    × Reps l' ps' xs'

pub front :
    (l : LinkedList) (p : Option ℕ) (ps xs : List ℕ)
    → Chain l.elements p ps xs
    → l.first ≡ p
    → l.last ≡ last_of ps
    → l.num_in_list ≡ length xs
    → ((xs ≡ []) × (remove_front l ≡ err assert_failed)) ⊎ Shortened l xs
unfolding remove_front last_of member unlink_first Shortened
front l _ _ _ stop f last num = inl (refl, rw num refl)
front l _ _ _ (link a x next _ _ e m stop) f last num = inr (
  x,
  [],
  [],
  refl,
  record l {
    elements = store_element l.elements a none;
    first = none;
    last = none;
    num_in_list = l.num_in_list - 1;
  },
  rw (num, f, e, last, self_eq a) refl,
  record { chain = stop; last = refl; num = omega (arith, num) },
)
front l _ _ _ (link a x next _ _ e m (link b y next' qs ys e' m' c)) f last num =
    let c' : Chain l.elements (some b) (b ∷ qs) (y ∷ ys) = link b y next' qs ys e' m' c in
    let (z, zl) = last_of-some b qs in
    let zm = member-last_of (b ∷ qs) z zl in
    let more : (a == z) ≡ false = (let az : a ≢ z = λ q. cc in ground arith) in
    let nonempty : (l.num_in_list == 0) ≡ false = ground arith in
    let g = store_element l.elements a none in
    let same : (d : ℕ) → member d (b ∷ qs) ≡ true → g d ≡ l.elements d =
      λ d h. let ad : a ≢ d = λ q. cc in ground arith in
    inr (
      x,
      y ∷ ys,
      b ∷ qs,
      refl,
      record l { elements = g; first = some b; num_in_list = l.num_in_list - 1 },
      rw (nonempty, f, e, last ∙ zl, more) refl,
      record {
        chain = frame l.elements g (some b) (b ∷ qs) (y ∷ ys) same c';
        last = last;
        num = omega (arith, num);
      },
    )
