-- ===== src/UserMemory/Post.antt =====
-- What holds of the value that a routine comes back with, if it comes back.
use nachos_project_2_os_subj.Base.{
  Bool, true, false, List, [], ◌∷◌, Option, none, some, Result, ok, err, Fault, ◌>>=◌, ◌≡◌, refl,
  if◌then◌else◌,
}
use mathlib.Core.Path.{subst}

pub data Post {ℓ κ} {A : Type ℓ} (P : A → Type κ) : Result A → Type (ℓ ⊔ κ) where
  comes : (a : A) → P a → Post P (ok a)
  fails : (e : Fault) → Post P (err e)

module _ {ℓ κ} {A : Type ℓ} {P : A → Type κ} where
  pub Post-if : (b : Bool) (x y : Result A) → Post P x → Post P y → Post P (if b then x else y)
  Post-if true x y h k = h
  Post-if false x y h k = k

  pub Post-cond :
      (b : Bool) (x y : Result A) → Post P x → Post P y → Post P (elim b [ true ↦ x | false ↦ y ])
  Post-cond true x y h k = h
  Post-cond false x y h k = k

  -- The two ways to and from an equation.
  pub Post-of : (r : Result A) → ((a : A) → r ≡ ok a → P a) → Post P r
  Post-of (ok a) h = comes a (h a refl)
  Post-of (err e) h = fails e

  post_value : {r : Result A} → Post P r → (a : A) → r ≡ ok a → P a
  post_value (comes b p) a e = subst P (cc) p
  post_value (fails x) a e = cc

  pub Post-at : (r : Result A) (a : A) → Post P r → r ≡ ok a → P a
  Post-at r a h e = post_value h a e

module _ {ℓ κ μ} {A : Type ℓ} {B : Type μ} {P : B → Type κ} where
  pub Post-bind :
      {Q : A → Type κ} {m : Result A} {f : A → Result B}
      → Post Q m
      → ((a : A) → Q a → Post P (f a))
      → Post P (m >>= f)
  Post-bind (comes a h) k = k a h
  Post-bind (fails e) k = fails e

  -- After a call of which nothing needs to be known.
  pub Post-any : (m : Result A) (f : A → Result B) → ((a : A) → Post P (f a)) → Post P (m >>= f)
  Post-any (ok a) f k = k a
  Post-any (err e) f k = fails e

  pub Post-option :
      (o : Option A) (x : Result B) (f : A → Result B)
      → Post P x
      → ((a : A) → Post P (f a))
      → Post P (elim o [ none ↦ x | some a ↦ f a ])
  Post-option none x f h k = h
  Post-option (some a) x f h k = k a

pub Post-list {ℓ κ μ} :
    {A : Type ℓ} {B : Type μ} {P : B → Type κ} (xs : List A) (e : Result B)
    (f : A → List A → Result B)
    → Post P e
    → ((x : A) (rest : List A) → Post P (f x rest))
    → Post P (elim xs [ [] ↦ e | x ∷ rest ↦ f x rest ])
Post-list [] e f h k = h
Post-list (x ∷ rest) e f h k = k x rest

pub Post-weaken {ℓ κ μ} :
    {A : Type ℓ} {P : A → Type κ} {Q : A → Type μ} {r : Result A}
    → ((a : A) → Q a → P a)
    → Post Q r
    → Post P r
Post-weaken f (comes a h) = comes a (f a h)
Post-weaken f (fails e) = fails e
