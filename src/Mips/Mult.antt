-- ===== src/Mips/Mult.antt =====
-- machine/mipssim.cc, Mult: the product of two words as two words.
pub mod Product
use nachos_project_2_os_subj.Base.{
  ℕ, zero, suc, ◌+◌, ◌-◌, ◌*◌, ◌/◌, ◌%◌, ◌^◌, ◌<◌, ◌≤◌, ◌≡◌, arith, Bool, true, false, not, ◌&&◌,
  ◌||◌, ◌==◌, slt, sub32, u32, leb, ltb, if◌then◌else◌,
}
use nachos_project_2_os_subj.Mips.Bits.{shift_right, not32}

-- The product so far, with b added where the lowest bit of a says so.
unfoldable pub accumulate : (a b_hi b_lo hi lo : ℕ) → ℕ × ℕ
accumulate a b_hi b_lo hi lo =
    let sum = u32 (lo + b_lo) in
    if a % 2 == 1 then (u32 (u32 (hi + (if ltb sum b_lo then 1 else 0)) + b_hi), sum) else (hi, lo)

-- The high word of b, doubled.
unfoldable pub double_hi : (b_hi b_lo : ℕ) → ℕ
double_hi b_hi b_lo = u32 (2 * b_hi) + (if leb (2 ^ 31) b_lo then 1 else 0)

-- The main loop, with `rounds` to go: the high and the low word of the product.
unfoldable pub mult_loop : (rounds a b_hi b_lo hi lo : ℕ) → ℕ × ℕ
mult_loop zero a b_hi b_lo hi lo = (hi, lo)
mult_loop (suc rounds) a b_hi b_lo hi lo =
    let p = accumulate a b_hi b_lo hi lo in
    let rest = mult_loop rounds (shift_right a 1) (double_hi b_hi b_lo) (u32 (2 * b_lo)) p.0 p.1 in
    if a == 1 then p else rest

-- The two's complement of a double word.
unfoldable pub complement : ℕ × ℕ → ℕ × ℕ
complement (hi, lo) =
    let lo₁ = u32 (not32 lo + 1) in (u32 (not32 hi + (if lo₁ == 0 then 1 else 0)), lo₁)

-- Without the sign, in signed arithmetic.
abbrev pub magnitude : Bool → ℕ → ℕ
magnitude signed a = if signed && slt a 0 then sub32 0 a else a

-- Of two negative numbers, the second `!negative` takes the first back.
abbrev pub negated : Bool → ℕ → ℕ → Bool
negated signed a b = if signed && slt b 0 then not (signed && slt a 0) else signed && slt a 0

-- The new contents of *hiPtr and *loPtr.
unfoldable pub mult_words : ℕ → ℕ → (signed : Bool) → ℕ × ℕ
mult_words a b signed =
    if a == 0 || b == 0
    then (0, 0)
    else (let product = mult_loop 32 (magnitude signed a) 0 (magnitude signed b) 0 0 in
        if negated signed a b then complement product else product)

-- Two words, of the 64 bits that they make up.
pub record IsPair (p : ℕ × ℕ) : Type 0 where
  pub hi : p.0 < 2 ^ 32
  pub lo : p.1 < 2 ^ 32

accumulate-IsPair :
    (a b_hi b_lo : ℕ) (p : ℕ × ℕ) → IsPair p → IsPair (accumulate a b_hi b_lo p.0 p.1)
unfolding accumulate
accumulate-IsPair a b_hi b_lo p w = record { hi = ground (arith, w.hi); lo = ground (arith, w.lo) }

if-IsPair : (b : Bool) (p q : ℕ × ℕ) → IsPair p → IsPair q → IsPair (if b then p else q)
if-IsPair true p q h k = h
if-IsPair false p q h k = k

pub mult_loop-IsPair :
    (rounds a b_hi b_lo : ℕ) (p : ℕ × ℕ) → IsPair p → IsPair (mult_loop rounds a b_hi b_lo p.0 p.1)
unfolding mult_loop
mult_loop-IsPair zero a b_hi b_lo p w = w
mult_loop-IsPair (suc rounds) a b_hi b_lo p w =
    let s = accumulate-IsPair a b_hi b_lo p w in
    if-IsPair (a == 1) _ _ s (mult_loop-IsPair rounds _ _ _ _ s)

complement-IsPair : (p : ℕ × ℕ) → IsPair (complement p)
unfolding complement
complement-IsPair (hi, lo) = record { hi = omega arith; lo = omega arith }

pub mult_words-IsPair : (a b : ℕ) (signed : Bool) → IsPair (mult_words a b signed)
unfolding mult_words
mult_words-IsPair a b signed =
    let zeros : IsPair (0, 0) = record { hi = omega arith; lo = omega arith } in
    let p = mult_loop-IsPair 32 (magnitude signed a) 0 (magnitude signed b) (0, 0) zeros in
    if-IsPair (a == 0 || b == 0) _ _ zeros
      (if-IsPair (negated signed a b) _ _ (complement-IsPair _) p)
