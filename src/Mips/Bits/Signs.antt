-- ===== src/Mips/Bits/Signs.antt =====
-- The highest bit of a bit operation, and the sign bits that differ.
use nachos_project_2_os_subj.Base.{
  ℕ, zero, suc, ◌+◌, ◌*◌, ◌/◌, ◌%◌, ◌^◌, ◌<◌, ◌≡◌, ◌∙◌, ap, sym, arith, not, ◌==◌, slt,
  if◌then◌else◌,
}
use native.Mathlib.Nat.{div-div-eq-div-mul, pow-succ'}
use nachos_project_2_os_subj.Mips.Bits.{bitwise, bitwise_bound, xor32, signs_differ}

halves : (a w : ℕ) → a / 2 / 2 ^ w ≡ a / 2 ^ suc w
halves a w = div-div-eq-div-mul a 2 (2 ^ w) ∙ ap (λ x. a / x) (sym (pow-succ' 2 w))

bitwise_top :
    (f : ℕ → ℕ → ℕ) (w a b : ℕ)
    → bitwise f (suc w) a b / 2 ^ w ≡ f (a / 2 ^ w % 2) (b / 2 ^ w % 2) % 2
unfolding bitwise
bitwise_top f zero a b =
    let ea : a / 2 ^ 0 ≡ a = omega arith in
    let eb : b / 2 ^ 0 ≡ b = omega arith in rw (ea, eb) (omega arith)
bitwise_top f (suc w) a b =
    let rest = bitwise f (suc w) (a / 2) (b / 2) in
    let bit = f (a % 2) (b % 2) % 2 in
    let half : (2 * rest + bit) / 2 ≡ rest = omega arith in
    let top = bitwise_top f w (a / 2) (b / 2) in
    sym (halves (2 * rest + bit) w)
    ∙ ap (λ x. x / 2 ^ w) half
    ∙ top
    ∙ ap (λ x. f (x % 2) (b / 2 / 2 ^ w % 2) % 2) (halves a w)
    ∙ ap (λ x. f (a / 2 ^ suc w % 2) (x % 2) % 2) (halves b w)

signs :
    (a b x : ℕ)
    → a < 2 ^ 32
    → b < 2 ^ 32
    → x < 2 ^ 32
    → x / 2 ^ 31 ≡ (if a / 2 ^ 31 % 2 == b / 2 ^ 31 % 2 then 0 else 1) % 2
    → slt x 0 ≡ (if slt a 0 then not (slt b 0) else slt b 0)
signs a b x h k l e = ground arith

pub signs_differ_lem :
    (a b : ℕ)
    → a < 2 ^ 32
    → b < 2 ^ 32
    → signs_differ a b ≡ (if slt a 0 then not (slt b 0) else slt b 0)
unfolding xor32
signs_differ_lem a b h k =
    let f : ℕ → ℕ → ℕ = λ x y. if x == y then 0 else 1 in
    signs a b (xor32 a b) h k (bitwise_bound f 32 a b) (bitwise_top f 31 a b)
