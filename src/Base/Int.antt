-- ===== src/Base/Int.antt =====
-- A C `int` or `unsigned int` is its 32-bit pattern, a number below 2 ^ 32; a pattern from 2 ^ 31
-- on stands for a negative `int`.
use Prim.Native.Nat.{ℕ, ◌+◌, ◌-◌, ◌/◌, ◌%◌, ◌^◌, ◌<◌}
use mathlib.Core.Path.{◌≡◌}
use mathlib.Core.Bool.{Bool, ◌&&◌}
use native.Mathlib.Omega.{arith}
use nachos_project_2_os_subj.Base.Tests.{ltb, leb, if◌then◌else◌}

abbrev pub u32 : ℕ → ℕ
u32 n = n % 2 ^ 32

-- -1
abbrev pub minus_one : ℕ
minus_one = 2 ^ 32 - 1

-- a < b and a <= b on `int`
abbrev pub slt : ℕ → ℕ → Bool
slt a b = ltb ((a + 2 ^ 31) % 2 ^ 32) ((b + 2 ^ 31) % 2 ^ 32)

abbrev pub sle : ℕ → ℕ → Bool
sle a b = leb ((a + 2 ^ 31) % 2 ^ 32) ((b + 2 ^ 31) % 2 ^ 32)

-- a - b, wrapping
abbrev pub sub32 : ℕ → ℕ → ℕ
sub32 a b = (a + 2 ^ 32 - b % 2 ^ 32) % 2 ^ 32

-- divRoundUp(n, s)
abbrev pub div_round_up : ℕ → ℕ → ℕ
div_round_up n s = n / s + (if ltb 0 (n % s) then 1 else 0)

-- `0 <= i && i < n` on `int` is `i < n` on patterns, for a bound that is no negative `int`.
pub signed_range : (i n : ℕ) → i < 2 ^ 32 → n < 2 ^ 31 → (sle 0 i && slt i n) ≡ ltb i n
signed_range i n h k = ground arith
