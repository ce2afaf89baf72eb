-- ===== src/Mips/Mult/Product.antt =====
-- The product that Mult computes.
use nachos_project_2_os_subj.Base.{
  ℕ, zero, suc, ◌+◌, ◌-◌, ◌*◌, ◌/◌, ◌%◌, ◌^◌, ◌<◌, ◌≤◌, ◌≡◌, ◌∙◌, sym, refl, ap, arith, Bool-cases,
  inl, inr, Bool, true, false, ◌&&◌, ◌||◌, ◌==◌, slt, sub32, u32, if◌then◌else◌,
}
use native.Mathlib.Nat.{add-mul-mod_self_left, pow-succ', mul-le-mul}
use nachos_project_2_os_subj.Mips.Bits.{shift_right, not32}
use nachos_project_2_os_subj.Mips.Mult.{
  accumulate, double_hi, mult_loop, complement, mult_words, IsPair, accumulate-IsPair,
  mult_loop-IsPair,
}

-- The number that a pair of words stands for.
abbrev pub double_word : ℕ × ℕ → ℕ
double_word (hi, lo) = hi * 2 ^ 32 + lo

accumulate_lem :
    (a b_hi b_lo hi lo : ℕ)
    → b_hi < 2 ^ 32
    → b_lo < 2 ^ 32
    → hi < 2 ^ 32
    → lo < 2 ^ 32
    → (c : ℕ) × (double_word (accumulate a b_hi b_lo hi lo) + 2 ^ 64 * c
        ≡ double_word (hi, lo) + a % 2 * double_word (b_hi, b_lo))
unfolding accumulate
accumulate_lem a b_hi b_lo hi lo h k l n = elim (Bool-cases (a % 2 == 1)) [
  | inl odd ↦
      let low : a % 2 ≡ 1 = ground arith in
      rw low ((hi + b_hi + (lo + b_lo) / 2 ^ 32) / 2 ^ 32, ground arith)
  | inr even ↦ let low : a % 2 ≡ 0 = ground arith in rw low (0, omega arith)
]

double_lem :
    (b_hi b_lo : ℕ)
    → b_hi < 2 ^ 32
    → b_lo < 2 ^ 32
    → (c : ℕ) × (double_word (double_hi b_hi b_lo, u32 (2 * b_lo)) + 2 ^ 64 * c
        ≡ 2 * double_word (b_hi, b_lo))
unfolding double_hi
double_lem b_hi b_lo h k = (b_hi / 2 ^ 31, ground arith)

-- The sum that is left, from the sum that is left after one round.
round_lem :
    (l l' b b' q d c k : ℕ)
    → l' + 2 ^ 64 * c ≡ l + d * b
    → b' + 2 ^ 64 * k ≡ 2 * b
    → (l' + q * b') % 2 ^ 64 ≡ (l + (2 * q + d) * b) % 2 ^ 64
round_lem l l' b b' q d c k e f =
    let g : (l' + q * b') + 2 ^ 64 * (c + q * k) ≡ l + (2 * q + d) * b =
      omega (arith, ap (λ x. q * x) f) in
    sym (add-mul-mod_self_left (l' + q * b') (2 ^ 64) (c + q * k)) ∙ ap (λ x. x % 2 ^ 64) g

power_add : (n m : ℕ) → 2 ^ n * 2 ^ m ≡ 2 ^ (m + n)
power_add zero m = let e : m + 0 ≡ m = omega arith in omega (arith, ap (λ x. 2 ^ x) e)
power_add (suc n) m =
    let more = pow-succ' 2 (m + n) in
    let one_more : 2 ^ suc n * 2 ^ m ≡ 2 * 2 ^ n * 2 ^ m = ap (λ x. x * 2 ^ m) (pow-succ' 2 n) in
    let e : m + suc n ≡ suc (m + n) = omega arith in
    omega (arith, power_add n m, more, one_more, ap (λ x. 2 ^ x) e)

power_split : (n : ℕ) → n < 32 → 2 ^ n * 2 ^ (31 - n) ≡ 2 ^ 31
power_split n h =
    let sum : 31 - n + n ≡ 31 = omega arith in power_add n (31 - n) ∙ ap (λ x. 2 ^ x) sum

-- The shift of an `int`: the bits above those still to come are of no account.
shift_lem :
    (n a r t : ℕ)
    → n < 32
    → a < 2 ^ 32
    → a ≡ r + 2 ^ suc n * t
    → (t' : ℕ) × (shift_right a 1 ≡ r / 2 + 2 ^ n * t')
unfolding shift_right
shift_lem n a r t h k e =
    let power = power_split n h in
    let twice : 2 ^ suc n * t ≡ 2 * (2 ^ n * t) = omega (arith, ap (λ x. x * t) (pow-succ' 2 n)) in
    let half : a / 2 ≡ r / 2 + 2 ^ n * t = omega arith in
    elim (Bool-cases (slt a 0)) [
      | inl negative ↦
          let spread : 2 ^ n * (t + 2 ^ (31 - n)) ≡ 2 ^ n * t + 2 ^ 31 = omega (arith, power) in
          let top : 2 ^ 31 ≤ a = ground arith in
          (t + 2 ^ (31 - n), rw (negative, spread) (omega arith))
      | inr positive ↦ (t, ground arith)
    ]

module _ (a b : ℕ) (h : a < 2 ^ 32) (k : b < 2 ^ 32) where
  -- Words, of which the product has 64 bits.
  product_bound : a * b < 2 ^ 64
  product_bound =
      let h' : a ≤ 2 ^ 32 - 1 = omega arith in
      let k' : b ≤ 2 ^ 32 - 1 = omega arith in omega (arith, mul-le-mul h' k')

double_hi_bound : (b_hi b_lo : ℕ) → b_lo < 2 ^ 32 → double_hi b_hi b_lo < 2 ^ 32
unfolding double_hi
double_hi_bound b_hi b_lo h = ground arith

shift_right_one : (a : ℕ) → a < 2 ^ 32 → shift_right a 1 < 2 ^ 32
unfolding shift_right
shift_right_one a h = ground arith

twice : (n t : ℕ) → 2 ^ suc n * t ≡ 2 * (2 ^ n * t)
twice n t = omega (arith, ap (λ x. x * t) (pow-succ' 2 n))

-- The loop stops when the number that is left is 1.
stopped :
    (b : Bool) (p q : ℕ × ℕ) (x : ℕ)
    → (b ≡ true → double_word p % 2 ^ 64 ≡ x)
    → double_word q % 2 ^ 64 ≡ x
    → double_word (if b then p else q) % 2 ^ 64 ≡ x
stopped true p q x h k = h refl
stopped false p q x h k = k

no_rest : (l q b x : ℕ) → q ≡ 0 → (l + q * b) % 2 ^ 64 ≡ x → l % 2 ^ 64 ≡ x
no_rest l q b x e h = ap (λ y. y % 2 ^ 64) (let z : l ≡ l + q * b = rw e (omega arith) in z) ∙ h

mult_loop_lem :
    (n a b_hi b_lo r t : ℕ) (p : ℕ × ℕ)
    → n ≤ 32
    → a < 2 ^ 32
    → a ≡ r + 2 ^ n * t
    → r < 2 ^ n
    → b_hi < 2 ^ 32
    → b_lo < 2 ^ 32
    → IsPair p
    → double_word (mult_loop n a b_hi b_lo p.0 p.1) % 2 ^ 64
      ≡ (double_word p + r * double_word (b_hi, b_lo)) % 2 ^ 64
unfolding mult_loop
mult_loop_lem zero a b_hi b_lo r t p n h e l k m w =
    let none_left : r ≡ 0 = omega arith in
    no_rest (double_word p) r (double_word (b_hi, b_lo)) _ none_left refl
mult_loop_lem (suc n) a b_hi b_lo r t p z h e l k m w =
    let e₂ = twice n t in
    let last : a == 1 ≡ true → r / 2 ≡ 0 = λ one. ground arith in
    let low : a % 2 ≡ r % 2 = omega arith in
    let halves : 2 * (r / 2) + r % 2 ≡ r = omega arith in
    let (c, added) = accumulate_lem a b_hi b_lo p.0 p.1 k m w.hi w.lo in
    let (d, doubled) = double_lem b_hi b_lo k m in
    let (t', shifted) = shift_lem n a r t (omega arith) h e in
    let b = double_word (b_hi, b_lo) in
    let p' = accumulate a b_hi b_lo p.0 p.1 in
    let rest =
      mult_loop_lem n (shift_right a 1) (double_hi b_hi b_lo) (u32 (2 * b_lo)) (r / 2) t' p'
        (omega arith) (shift_right_one a h) shifted (omega arith) (double_hi_bound b_hi b_lo m)
        (omega arith) (accumulate-IsPair a b_hi b_lo p w) in
    let step =
      round_lem (double_word p) (double_word p') b _ (r / 2) (r % 2) c d
        (added ∙ ap (λ x. double_word p + x * b) low) doubled
      ∙ ap (λ x. (double_word p + x * b) % 2 ^ 64) halves in
    stopped (a == 1) _ _ _
      (λ one.
        no_rest (double_word p') (r / 2) (double_word (double_hi b_hi b_lo, u32 (2 * b_lo))) _
          (last one) step)
      (rest ∙ step)

loop_product : (a b : ℕ) → a < 2 ^ 32 → b < 2 ^ 32 → double_word (mult_loop 32 a 0 b 0 0) ≡ a * b
loop_product a b h k =
    let zeros : IsPair (0, 0) = record { hi = omega arith; lo = omega arith } in
    let loop =
      mult_loop_lem 32 a 0 b a 0 (0, 0) (omega arith) h (omega arith) h (omega arith) k zeros in
    let w = mult_loop-IsPair 32 a 0 b (0, 0) zeros in
    let low : double_word (mult_loop 32 a 0 b 0 0) < 2 ^ 64 = omega (arith, w.hi, w.lo) in
    omega (arith, product_bound a b h k, loop)

complement_lem :
    (p : ℕ × ℕ) → IsPair p → double_word (complement p) ≡ (2 ^ 64 - double_word p) % 2 ^ 64
unfolding complement not32
complement_lem (hi, lo) w = ground (arith, w.hi, w.lo)

-- The product of the complements, and of one number with the complement of the other.
both_negative :
    (a b x y : ℕ)
    → x + a ≡ 2 ^ 32
    → y + b ≡ 2 ^ 32
    → x * y + 2 ^ 32 * b + 2 ^ 32 * a ≡ a * b + 2 ^ 64
both_negative a b x y e f = omega (arith, ap (λ z. z * y) e, ap (λ z. a * z) f)

one_negative : (a b x : ℕ) → x + a ≡ 2 ^ 32 → x * b + a * b ≡ 2 ^ 32 * b
one_negative a b x e = omega (arith, ap (λ z. z * b) e)

negated_product :
    (a b : ℕ)
    → a < 2 ^ 32
    → b < 2 ^ 32
    → double_word (complement (mult_loop 32 a 0 b 0 0)) ≡ (2 ^ 64 - a * b) % 2 ^ 64
negated_product a b h k =
    let zeros : IsPair (0, 0) = record { hi = omega arith; lo = omega arith } in
    complement_lem _ (mult_loop-IsPair 32 a 0 b (0, 0) zeros)
    ∙ ap (λ z. (2 ^ 64 - z) % 2 ^ 64) (loop_product a b h k)

-- Mult of two 32-bit words gives the double word of their product: unsigned as it is, and in signed
-- arithmetic modulo 2 ^ 64 with 2 ^ 32 times the other word taken off for each that stands for a
-- negative number.
pub mult_words_lem :
    (a b : ℕ) (signed : Bool)
    → a < 2 ^ 32
    → b < 2 ^ 32
    → (double_word (mult_words a b signed)
          + (if signed && slt a 0 then 2 ^ 32 * b else 0)
          + (if signed && slt b 0 then 2 ^ 32 * a else 0))
        % 2 ^ 64
      ≡ a * b
unfolding mult_words
mult_words_lem a b signed h k =
    let x = sub32 0 a in
    let y = sub32 0 b in
    let hx : x < 2 ^ 32 = omega arith in
    let hy : y < 2 ^ 32 = omega arith in
    let bound = product_bound a b h k in
    elim (Bool-cases (a == 0 || b == 0)) [
      | inl zeros ↦ elim (Bool-cases (a == 0)) [
        | inl za ↦ let e : a ≡ 0 = ground arith in rw e (ground arith)
        | inr na ↦ let e : b ≡ 0 = ground arith in rw e (ground arith)
      ]
      | inr words ↦
          let xa : x + a ≡ 2 ^ 32 = ground arith in
          let yb : y + b ≡ 2 ^ 32 = ground arith in
          elim (Bool-cases (signed && slt a 0)) [
            | inl na ↦ elim (Bool-cases (signed && slt b 0)) [
              | inl nb ↦
                  rw (words, na, nb)
                    (omega (arith, loop_product x y hx hy, both_negative a b x y xa yb, bound))
              | inr pb ↦
                  rw (words, na, pb)
                    (omega (
                      arith,
                      negated_product x b hx k,
                      product_bound x b hx k,
                      one_negative a b x xa,
                      bound,
                    ))
            ]
            | inr pa ↦ elim (Bool-cases (signed && slt b 0)) [
              | inl nb ↦
                  rw (words, pa, nb)
                    (omega (
                      arith,
                      negated_product a y h hy,
                      product_bound a y h hy,
                      one_negative b a y yb,
                      bound,
                    ))
              | inr pb ↦ rw (words, pa, pb) (omega (arith, loop_product a b h k, bound))
            ]
          ]
    ]
