-- ===== src/Bitmap/Bits.antt =====
-- `|`, `&` and `~` of the words of a bitmap, read bit by bit.
use Prim.Native.Nat.{min, max, digits, bit_and, bit_or, bit_and-bitwise, bit_or-bitwise}
use native.Mathlib.Nat.{le_refl, pow-suc, one-le-pow}
use nachos_project_2_os_subj.Base.{
  ℕ, zero, suc, ◌+◌, ◌-◌, ◌*◌, ◌/◌, ◌%◌, ◌^◌, ◌≤◌, ◌<◌, ◌≡◌, refl, ap, ◌∙◌, arith, if◌then◌else◌,
  ◌==◌,
}

-- Bit `k` of a word, 0 or 1.
abbrev pub bit_at : ℕ → ℕ → ℕ
bit_at zero w = w % 2
bit_at (suc k) w = bit_at k (w / 2)

-- The native operations stand for a recursion on digits with fuel: any fuel that is enough.
module _ (z : ℕ → ℕ) (f : ℕ → ℕ → ℕ) where
  enough_fuel : (n m a b : ℕ) → a ≤ n → a ≤ m → digits z f n a b ≡ digits z f m a b
  enough_fuel zero zero zero b p q = refl
  enough_fuel zero (suc m) zero b p q = refl
  enough_fuel (suc n) zero zero b p q = refl
  enough_fuel (suc n) (suc m) zero b p q = refl
  enough_fuel zero m (suc a) b p q = absurd (omega arith)
  enough_fuel (suc n) zero (suc a) b p q = absurd (omega arith)
  enough_fuel (suc n) (suc m) (suc a) b p q =
      rw (enough_fuel n m (suc a / 2) (b / 2) (omega arith) (omega arith))

lowest_or : (a b : ℕ) → bit_or a b ≡ bit_or (a / 2) (b / 2) * 2 + max (a % 2) (b % 2)
lowest_or zero b = simp bit_or-bitwise (omega arith)
lowest_or (suc a) b = simp bit_or-bitwise (
    omega
      (arith, enough_fuel (λ y. y) max a (suc a / 2) (suc a / 2) (b / 2) (omega arith) (le_refl _)))

lowest_and : (a b : ℕ) → bit_and a b ≡ bit_and (a / 2) (b / 2) * 2 + min (a % 2) (b % 2)
lowest_and zero b = simp bit_and-bitwise (omega arith)
lowest_and (suc a) b = simp bit_and-bitwise (
    omega
      (arith, enough_fuel (λ y. 0) min a (suc a / 2) (suc a / 2) (b / 2) (omega arith) (le_refl _)))

half_or : (a b : ℕ) → bit_or a b / 2 ≡ bit_or (a / 2) (b / 2)
half_or a b = omega (arith, lowest_or a b)

half_and : (a b : ℕ) → bit_and a b / 2 ≡ bit_and (a / 2) (b / 2)
half_and a b = omega (arith, lowest_and a b)

half_pow : (k : ℕ) → 2 ^ suc k / 2 ≡ 2 ^ k
half_pow k = omega (arith, pow-suc 2 k)

pub bit_at-or : (k a b : ℕ) → bit_at k (bit_or a b) ≡ max (bit_at k a) (bit_at k b)
bit_at-or zero a b = omega (arith, lowest_or a b)
bit_at-or (suc k) a b = rw (half_or a b) (bit_at-or k (a / 2) (b / 2))

pub bit_at-and : (k a b : ℕ) → bit_at k (bit_and a b) ≡ min (bit_at k a) (bit_at k b)
bit_at-and zero a b = omega (arith, lowest_and a b)
bit_at-and (suc k) a b = rw (half_and a b) (bit_at-and k (a / 2) (b / 2))

pub bit_at-le : (k w : ℕ) → bit_at k w ≤ 1
bit_at-le zero w = omega arith
bit_at-le (suc k) w = bit_at-le k (w / 2)

pub bit_at-zero : (k : ℕ) → bit_at k 0 ≡ 0
bit_at-zero zero = refl
bit_at-zero (suc k) = bit_at-zero k

pub bit_at-pow : (j k : ℕ) → bit_at j (2 ^ k) ≡ (if j == k then 1 else 0)
bit_at-pow zero zero = refl
bit_at-pow zero (suc k) = ground (arith, pow-suc 2 k)
bit_at-pow (suc j) zero = ground (arith, bit_at-zero j)
bit_at-pow (suc j) (suc k) = rw (half_pow k) (ground (arith, bit_at-pow j k))

pub bit_at-not : (n k a : ℕ) → a < 2 ^ n → k < n → bit_at k (2 ^ n - 1 - a) ≡ 1 - bit_at k a
bit_at-not zero k a h l = absurd (omega arith)
bit_at-not (suc n) zero a h l = omega (arith, pow-suc 2 n)
bit_at-not (suc n) (suc k) a h l =
    rw halved (bit_at-not n k (a / 2) (omega (arith, pow-suc 2 n)) (omega arith))
  where
    halved : (2 ^ suc n - 1 - a) / 2 ≡ 2 ^ n - 1 - a / 2
    halved = omega (arith, pow-suc 2 n)

bit_and-zero : (fuel w : ℕ) → w ≤ fuel → bit_and w 0 ≡ 0
bit_and-zero fuel zero h = refl
bit_and-zero zero (suc w) h = absurd (omega arith)
bit_and-zero (suc fuel) (suc w) h =
    omega (arith, lowest_and (suc w) 0, bit_and-zero fuel (suc w / 2) (omega arith))

-- The test of one bit with `&`.
pub bit_and-pow : (k w : ℕ) → bit_and w (2 ^ k) ≡ bit_at k w * 2 ^ k
bit_and-pow zero w = omega (arith, lowest_and w 1, bit_and-zero (w / 2) (w / 2) (le_refl _))
bit_and-pow (suc k) w = omega (
  arith,
  lowest_and w (2 ^ suc k),
  ap (bit_and (w / 2)) (half_pow k),
  bit_and-pow k (w / 2),
  pow-suc 2 k,
  ap (λ (t : ℕ). bit_at k (w / 2) * t) (pow-suc 2 k),
)

pub pow_pos : (k : ℕ) → 0 < 2 ^ k
pow_pos k = one-le-pow k 2 (omega arith)

pub pow_lt : (k n : ℕ) → k < n → 2 ^ k < 2 ^ n
pow_lt k zero h = absurd (omega arith)
pow_lt zero (suc n) h = omega (arith, pow-suc 2 n, pow_pos n)
pow_lt (suc k) (suc n) h = omega (arith, pow-suc 2 n, pow-suc 2 k, pow_lt k n (omega arith))

pub bit_and-one : (a : ℕ) → bit_and a 1 ≡ a % 2
bit_and-one a = bit_and-pow 0 a ∙ omega arith

pub bit_and_three : (a : ℕ) → bit_and a 3 ≡ a % 4
bit_and_three a = omega (arith, lowest_and a 3, bit_and-one (a / 2))
