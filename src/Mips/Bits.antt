-- ===== src/Mips/Bits.antt =====
-- The operators &, |, ^, ~, << and >> of machine/mipssim.cc on 32-bit patterns.
pub mod Signs
use nachos_project_2_os_subj.Base.{
  ℕ, zero, suc, ◌+◌, ◌-◌, ◌*◌, ◌/◌, ◌%◌, ◌^◌, ◌<◌, ◌≤◌, ◌≡◌, arith, Bool, ◌==◌, slt, u32,
  if◌then◌else◌,
}

-- A bit operation on each of the lowest `width` bits.
unfoldable pub bitwise : (ℕ → ℕ → ℕ) → ℕ → ℕ → ℕ → ℕ
bitwise f zero a b = 0
bitwise f (suc width) a b =
    let rest = bitwise f width (a / 2) (b / 2) in 2 * rest + f (a % 2) (b % 2) % 2

unfoldable pub and32 : ℕ → ℕ → ℕ
and32 = bitwise (λ x y. if x == 0 then 0 else y) 32

unfoldable pub or32 : ℕ → ℕ → ℕ
or32 = bitwise (λ x y. if x == 0 then y else 1) 32

unfoldable pub xor32 : ℕ → ℕ → ℕ
xor32 = bitwise (λ x y. if x == y then 0 else 1) 32

unfoldable pub not32 : ℕ → ℕ
not32 a = 2 ^ 32 - 1 - a % 2 ^ 32

-- The sign bits differ, as `(a ^ b) & SIGN_BIT` tells.
abbrev pub signs_differ : ℕ → ℕ → Bool
signs_differ a b = slt (xor32 a b) 0

abbrev pub shift_left : ℕ → ℕ → ℕ
shift_left a n = u32 (a * 2 ^ n)

-- >> on an `int`, which repeats the sign bit.
unfoldable pub shift_right : ℕ → ℕ → ℕ
shift_right a n = if slt a 0 then 2 ^ 32 - 1 - (2 ^ 32 - 1 - a) / 2 ^ n else a / 2 ^ n

pub bitwise_bound : (f : ℕ → ℕ → ℕ) (width a b : ℕ) → bitwise f width a b < 2 ^ width
unfolding bitwise
bitwise_bound f zero a b = omega arith
bitwise_bound f (suc width) a b = let h = bitwise_bound f width (a / 2) (b / 2) in omega arith
