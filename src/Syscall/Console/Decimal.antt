-- ===== src/Syscall/Console/Decimal.antt =====
-- The numbers that SC_PrintInt prints, read back.
use nachos_project_2_os_subj.Base.{
  ℕ, zero, suc, ◌+◌, ◌-◌, ◌*◌, ◌/◌, ◌%◌, ◌^◌, ◌<◌, ◌≤◌, ◌≡◌, ◌≢◌, ◌∙◌, ap, sym, arith, List, [],
  ◌∷◌, true, Bool-cases, inl, inr, ◌==◌, slt, sub32, if◌then◌else◌,
}
use native.Mathlib.Nat.{pow-succ'}
use nachos_project_2_os_subj.Syscall.Console.{count_digits, fill_digits, print_int}

-- The number that decimal digits stand for, after some that stand for `so_far`.
pub digits_value : (so_far : ℕ) → List ℕ → ℕ
digits_value so_far [] = so_far
digits_value so_far (c ∷ chars) = digits_value (10 * so_far + (c - 48)) chars

-- A number with an optional sign before its digits.
pub int_value : List ℕ → ℕ
int_value [] = 0
int_value (c ∷ chars) =
    if c == 45 then sub32 0 (digits_value 0 chars) else digits_value 0 (c ∷ chars)

fill_digits_value :
    (count n so_far : ℕ) (buffer : List ℕ)
    → n < 10 ^ count
    → digits_value so_far (fill_digits count n buffer)
      ≡ digits_value (so_far * 10 ^ count + n) buffer
unfolding fill_digits digits_value
fill_digits_value zero n so_far buffer h = ap (λ x. digits_value x buffer) (omega arith)
fill_digits_value (suc count) n so_far buffer h =
    let p = pow-succ' 10 count in
    let q : so_far * 10 ^ suc count ≡ 10 * (so_far * 10 ^ count) =
      omega (arith, ap (λ x. so_far * x) p) in
    fill_digits_value count (n / 10) so_far ((n % 10 + 48) ∷ buffer) (omega arith)
    ∙ ap (λ x. digits_value x buffer) (omega arith)

count_digits_enough : (rounds n : ℕ) → n < 2 ^ 31 → n < 10 ^ rounds → n < 10 ^ count_digits rounds n
unfolding count_digits
count_digits_enough zero n h k = k
count_digits_enough (suc rounds) n h k =
    let p = pow-succ' 10 rounds in
    let rest = count_digits_enough rounds (n / 10) (omega arith) (omega arith) in
    elim (Bool-cases (slt 0 n)) [
      | inl more ↦ rw more (omega (arith, rest, pow-succ' 10 (count_digits rounds (n / 10))))
      | inr none_left ↦ rw none_left (ground arith)
    ]

-- Characters that begin with a digit.
data Begins : List ℕ → Type 0 where
  begins : (c : ℕ) (chars : List ℕ) → 48 ≤ c → Begins (c ∷ chars)

fill_digits-Begins :
    (count n : ℕ) (buffer : List ℕ) → Begins buffer → Begins (fill_digits count n buffer)
unfolding fill_digits
fill_digits-Begins zero n buffer b = b
fill_digits-Begins (suc count) n buffer b =
    fill_digits-Begins count (n / 10) _ (begins (n % 10 + 48) buffer (omega arith))

int_value-Begins : (chars : List ℕ) → Begins chars → int_value chars ≡ digits_value 0 chars
unfolding int_value
int_value-Begins _ (begins c chars h) = ground arith

-- The digits of a positive `int`.
abbrev digits : ℕ → List ℕ
digits n = fill_digits (count_digits 10 n) n []

digits_lem : (n : ℕ) → n < 2 ^ 31 → digits_value 0 (digits n) ≡ n
unfolding digits_value
digits_lem n h =
    let enough = count_digits_enough 10 n h (omega arith) in
    fill_digits_value (count_digits 10 n) n 0 [] enough ∙ omega arith

digits-Begins :
    (rounds n : ℕ) → slt 0 n ≡ true → Begins (fill_digits (count_digits (suc rounds) n) n [])
unfolding count_digits fill_digits
digits-Begins rounds n h = rw h (
    fill_digits-Begins (count_digits rounds (n / 10)) (n / 10) _
      (begins (n % 10 + 48) [] (omega arith)))

-- The characters that SC_PrintInt prints for an int, but for the least one, read back as a decimal
-- number with an optional sign, give the int.
pub int_value-print_int : (n : ℕ) → n < 2 ^ 32 → n ≢ 2 ^ 31 → int_value (print_int n) ≡ n
unfolding print_int int_value digits_value
int_value-print_int n h k = elim (Bool-cases (n == 0)) [
  | inl e ↦ let z : n ≡ 0 = ground arith in rw e (sym z)
  | inr ne ↦ elim (Bool-cases (slt n 0)) [
    | inl negative ↦
        let m = sub32 0 n in
        let back : sub32 0 m ≡ n = ground arith in
        rw (ne, negative) (ap (λ x. sub32 0 x) (digits_lem m (ground arith)) ∙ back)
    | inr positive ↦
        let small : n < 2 ^ 31 = ground arith in
        let more : slt 0 n ≡ true = ground arith in
        rw (ne, positive)
          (int_value-Begins (digits n) (digits-Begins 9 n more) ∙ digits_lem n small)
  ]
]
