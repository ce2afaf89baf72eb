-- ===== src/Threads/Fuel.antt =====
-- Results that come back with enough fuel.
use nachos_project_2_os_subj.Base.{
  ◌≢◌, Bool, true, false, Option, none, some, Result, ok, err, out_of_fuel, ◌>>=◌, ◌>>◌, deref,
  assert, Fault,
}

-- It has enough fuel; what it comes back with, if it comes back, is `P`.
pub data Ends {ℓ} {A : Type ℓ} (P : A → Type 0) : Result A → Type ℓ where
  ends_ok : (a : A) → P a → Ends P (ok a)
  ends_err : (e : Fault) → e ≢ out_of_fuel → Ends P (err e)

pub Ends-bind {ℓ κ} :
    {A : Type ℓ} {B : Type κ} {Q : A → Type 0} {P : B → Type 0} {m : Result A} {f : A → Result B}
    → Ends Q m
    → ((a : A) → Q a → Ends P (f a))
    → Ends P (m >>= f)
Ends-bind (ends_ok a h) k = k a h
Ends-bind (ends_err e h) k = ends_err e h

pub Ends-map {ℓ} :
    {A : Type ℓ} {P Q : A → Type 0} {m : Result A} → Ends Q m → ((a : A) → Q a → P a) → Ends P m
Ends-map (ends_ok a h) k = ends_ok a (k a h)
Ends-map (ends_err e h) k = ends_err e h

pub Ends-assert {κ} :
    {B : Type κ} {P : B → Type 0} (b : Bool) (r : Result B) → Ends P r → Ends P (assert b >> r)
Ends-assert true r h = h
Ends-assert false r h = ends_err _ (λ q. cc)

pub Ends-deref {ℓ κ} :
    {A : Type ℓ} {B : Type κ} {P : B → Type 0} (o : Option A) (f : A → Result B)
    → ((a : A) → Ends P (f a))
    → Ends P (deref o >>= f)
Ends-deref none f k = ends_err _ (λ q. cc)
Ends-deref (some a) f k = k a

pub Ends-returns {ℓ} : {A : Type ℓ} {P : A → Type 0} {r : Result A} → Ends P r → r ≢ err out_of_fuel
Ends-returns (ends_ok a h) q = cc
Ends-returns (ends_err e h) q = h (cc)

abbrev pub Any {ℓ} : {A : Type ℓ} → A → Type 0
Any a = Unit

pub assert-Ends : (b : Bool) → Ends Any (assert b)
assert-Ends true = ends_ok tt tt
assert-Ends false = ends_err _ (λ q. cc)
