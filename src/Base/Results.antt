-- ===== src/Base/Results.antt =====
-- What a kernel routine comes back with: a value, or the reason why it never returns.
use mathlib.Core.Path.{◌≡◌, refl, ap, ◌∙◌}
use mathlib.Core.Bool.{Bool, true, false}
use mathlib.Core.Option.{Option, none, some}
use Prim.Native.Nat.{ℕ}

-- `assert_failed` is a failed ASSERT (the simulator aborts), `wild_access` a use of a null pointer
-- or of memory outside its array (undefined in C++), `halted` a call of Interrupt::Halt,
-- `trapped` one after an exception of the machine, by its number, and `blocked` a P() on a semaphore at 0 where only this thread is modelled, `no_memory` a `new` of a
-- negative size, `bad_division` a signed division whose result is no `int` (the host traps), and
-- `int_overflow` a sum of the simulator itself that is no `int` (undefined in C++).
-- `out_of_fuel` is a loop of the model that was given too few rounds.
pub data Fault : Type 0 where
  assert_failed wild_access halted blocked no_memory bad_division int_overflow : Fault
  out_of_fuel : Fault
  trapped : ℕ → Fault

pub data Result {ℓ} (A : Type ℓ) : Type ℓ where
  ok : A → Result A
  err : Fault → Result A

-- A use of a pointer that may be null, or of an array element that may not be there.
abbrev pub deref {ℓ} : {A : Type ℓ} → Option A → Result A
deref none = err wild_access
deref (some a) = ok a

abbrev pub guard : Bool → Fault → Result (Unit {0})
guard false fault = err fault
guard true fault = ok tt

-- ASSERT(b)
abbrev pub assert : Bool → Result (Unit {0})
assert b = guard b assert_failed

pub ok-injective {ℓ} : {A : Type ℓ} {a b : A} → ok a ≡ ok b → a ≡ b
ok-injective e = cc

-- The rest of a routine, after a call that may not come back.
infixl 5 ◌>>=◌ ◌>>◌
abbrev pub ◌>>=◌ {ℓ κ} : {A : Type ℓ} {B : Type κ} → Result A → (A → Result B) → Result B
err fault >>= rest = err fault
ok a >>= rest = rest a

pub >>=-eq-ok {ℓ κ} :
    {A : Type ℓ} {B : Type κ} (call : Result A) (rest : A → Result B) {b : B}
    → (call >>= rest) ≡ ok b
    → (a : A) × (call ≡ ok a) × (rest a ≡ ok b)
>>=-eq-ok (ok a) rest e = (a, refl, e)
>>=-eq-ok (err fault) rest e = cc

-- A call that returns, and then the rest.
pub bind_ok {ℓ κ} :
    {A : Type ℓ} {B : Type κ} {call : Result A} {a : A} {result : Result B} (rest : A → Result B)
    → call ≡ ok a
    → rest a ≡ result
    → (call >>= rest) ≡ result
bind_ok rest e h = ap (λ r. r >>= rest) e ∙ h

abbrev pub ◌>>◌ {ℓ} : {B : Type ℓ} → Result (Unit {0}) → Result B → Result B
call >> rest = call >>= λ _. rest
