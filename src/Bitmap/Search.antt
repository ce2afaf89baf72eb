-- ===== src/Bitmap/Search.antt =====
-- FindAndSet, NumClear and the constructor over the whole bitmap.
use mathlib.Core.Path.{fun_ext, ap₂}
use nachos_project_2_os_subj.Base.{
  ℕ, zero, suc, ◌+◌, ◌/◌, ◌%◌, ◌^◌, ◌≤◌, ◌<◌, ◌≡◌, refl, sym, ◌∙◌, ap, arith, Bool, true, false, ok,
  if◌then◌else◌, ◌==◌, ◌⊎◌, inl, inr, minus_one, Bool-cases, ltb, lt→ltb, Result, slt, replicate,
  length-replicate, get_or-replicate, div_round_up,
}
use nachos_project_2_os_subj.Bitmap.{
  Bitmap, bits_in_word, init, clear_from, find_from, find_and_set, count_from, num_clear,
}
use nachos_project_2_os_subj.Bitmap.Bits.{bit_at-zero}
use nachos_project_2_os_subj.Bitmap.Marks.{
  IsValid, is_set, word_of, marked, test_lem, mark_lem, clear_lem, is_set-marked, is_set-cleared,
  marked-IsValid, cleared-IsValid, num_bits-marked, num_bits-cleared,
}

-- How many of the first `n` bits are clear.
unfoldable pub clear_below : (ℕ → Bool) → ℕ → ℕ
clear_below f zero = 0
clear_below f (suc n) = clear_below f n + (if f n then 0 else 1)

count_from_lem :
    {b : Bitmap} (v : IsValid b) (left i : ℕ)
    → i + left ≤ b.num_bits
    → count_from left i b (clear_below (is_set b) i) ≡ ok (clear_below (is_set b) (i + left))
unfolding count_from clear_below
count_from_lem {b} v zero i h = let e : i + 0 ≡ i = omega arith in rw e
count_from_lem {b} v (suc left) i h =
    let e : i + suc left ≡ suc i + left = omega arith in
    rw (e, test_lem v i (omega arith)) (ground (arith, count_from_lem v left (suc i) (omega arith)))

-- NumClear counts the clear bits.
pub num_clear_lem : {b : Bitmap} → IsValid b → num_clear b ≡ ok (clear_below (is_set b) b.num_bits)
unfolding num_clear clear_below
num_clear_lem {b} v = ground (arith, count_from_lem v b.num_bits 0)

-- What FindAndSet does from bit `i` on, with the bits below `i` known to be set.
abbrev Finds : Bitmap → ℕ → Result (Bitmap × ℕ) → Type 0
Finds b n r =
    (((j : ℕ) → j < n → is_set b j ≡ true) × (r ≡ ok (b, minus_one)))
    ⊎ ((k : ℕ) × (k < n)
        × (is_set b k ≡ false)
        × ((j : ℕ) → j < k → is_set b j ≡ true)
        × (r ≡ ok (marked b k, k)))

find_from_lem :
    {b : Bitmap} (v : IsValid b) (left i : ℕ)
    → i + left ≡ b.num_bits
    → ((j : ℕ) → j < i → is_set b j ≡ true)
    → Finds b b.num_bits (find_from left i b)
unfolding find_from
find_from_lem {b} v zero i e low = inl (λ j l. low j (omega arith), refl)
find_from_lem {b} v (suc left) i e low = elim (Bool-cases (is_set b i)) [
  | inl on ↦
      rw (test_lem v i (omega arith), on)
        (find_from_lem v left (i + 1) (omega arith) (λ j l. ground (arith, low j)))
  | inr off ↦
      rw (test_lem v i (omega arith), off, mark_lem v i (omega arith))
        (inr (i, omega arith, off, low, refl))
]

pub find_and_set_lem : {b : Bitmap} (v : IsValid b) → Finds b b.num_bits (find_and_set b)
unfolding find_and_set
find_and_set_lem {b} v = find_from_lem v b.num_bits 0 (omega arith) (λ j l. elim l [ ])

pub clear_below-update :
    (f g : ℕ → Bool) (k : ℕ)
    → f k ≡ false
    → ((j : ℕ) → g j ≡ (if k == j then true else f j))
    → (n : ℕ) → clear_below g n + (if ltb k n then 1 else 0) ≡ clear_below f n
unfolding clear_below
clear_below-update f g k off e zero = ground arith
clear_below-update f g k off e (suc n) = ground (arith, clear_below-update f g k off e n, e n)

pub clear_below-all : (f : ℕ → Bool) (n : ℕ) → ((j : ℕ) → j < n → f j ≡ true) → clear_below f n ≡ 0
unfolding clear_below
clear_below-all f zero h = refl
clear_below-all f (suc n) h = ground (arith, clear_below-all f n (λ j l. h j (omega arith)), h n)

-- Setting a clear bit below `n` leaves one clear bit less.
pub clear_below_one_less :
    (f g : ℕ → Bool) (k n : ℕ)
    → k < n
    → f k ≡ false
    → ((j : ℕ) → g j ≡ (if k == j then true else f j))
    → clear_below g n + 1 ≡ clear_below f n
clear_below_one_less f g k n l off e = rw (lt→ltb k n l) at (clear_below-update f g k off e n)

-- FindAndSet on a valid bitmap, by the number that NumClear counts: at 0 it returns -1 and changes
-- nothing; otherwise it returns the first clear bit, sets that bit and no other, keeps the bitmap
-- valid, and NumClear counts one less.
pub find_and_set_first :
    {b : Bitmap} (v : IsValid b) (free : ℕ)
    → num_clear b ≡ ok free
    → ((free ≡ 0) × (find_and_set b ≡ ok (b, minus_one)))
      ⊎ ((k : ℕ) × (b' : Bitmap) × (find_and_set b ≡ ok (b', k))
          × (k < b.num_bits)
          × (is_set b k ≡ false)
          × ((j : ℕ) → j < k → is_set b j ≡ true)
          × ((j : ℕ) → is_set b' j ≡ (if k == j then true else is_set b j))
          × IsValid b'
          × (b'.num_bits ≡ b.num_bits)
          × (n : ℕ) × (num_clear b' ≡ ok n)
          × (free ≡ n + 1))
find_and_set_first {b} v free e = elim (find_and_set_lem v) [
  | inl (all, r) ↦
      inl (ground (arith, num_clear_lem v, clear_below-all (is_set b) b.num_bits all), r)
  | inr (k, l, off, low, r) ↦ inr (
    k,
    marked b k,
    r,
    l,
    off,
    low,
    is_set-marked v k l,
    marked-IsValid v k l,
    num_bits-marked b k,
    clear_below (is_set (marked b k)) b.num_bits,
    num_clear_lem (marked-IsValid v k l)
        ∙ ap (λ n. ok (clear_below (is_set (marked b k)) n)) (num_bits-marked b k),
    ground (
      arith,
      num_clear_lem v,
      clear_below-update (is_set b) (is_set (marked b k)) k off (is_set-marked v k l) b.num_bits,
    ),
  )
]

blank : ℕ → Bitmap
blank n = record {
  num_bits = n;
  num_words = div_round_up n bits_in_word;
  map = replicate (div_round_up n bits_in_word) 0;
}

blank-IsValid : (n : ℕ) → n < 2 ^ 31 → IsValid (blank n)
unfolding blank
blank-IsValid n h = record {
  enough = ground (arith, length-replicate {A = ℕ} (div_round_up n bits_in_word) 0);
  small = h;
}

blank-clear : (n j : ℕ) → is_set (blank n) j ≡ false
unfolding blank is_set word_of
blank-clear n j =
    rw
      (
        get_or-replicate {A = ℕ} (div_round_up n bits_in_word) (j / bits_in_word) 0,
        bit_at-zero (j % bits_in_word),
      )
      refl

clear_from_lem :
    (left i : ℕ) {b : Bitmap}
    → IsValid b
    → i + left ≤ b.num_bits
    → ((j : ℕ) → is_set b j ≡ false)
    → (b' : Bitmap) × (clear_from left i b ≡ ok b')
      × IsValid b'
      × (b'.num_bits ≡ b.num_bits)
      × ((j : ℕ) → is_set b' j ≡ false)
unfolding clear_from
clear_from_lem zero i {b} v h off = (b, refl, v, refl, off)
clear_from_lem (suc left) i {b} v h off =
    let l : i < b.num_bits = omega arith in
    let (b', e, v', n, off') =
      clear_from_lem left (i + 1) (cleared-IsValid v i l) (omega (arith, num_bits-cleared b i))
        (λ j. ground (arith, is_set-cleared v i l j, off j)) in
    (b', rw (clear_lem v i l) e, v', n ∙ num_bits-cleared b i, off')

-- A new bitmap of a positive number of bits is valid, and every bit of it is clear.
init_lem :
    (n : ℕ)
    → 0 < n
    → n < 2 ^ 31
    → (b : Bitmap) × (init n ≡ ok b) × IsValid b × (b.num_bits ≡ n) × ((j : ℕ) → is_set b j ≡ false)
unfolding init blank
init_lem n p h =
    let positive : slt 0 n ≡ true = ground arith in
    let (b, e, v, m, off) = clear_from_lem n 0 (blank-IsValid n h) (omega arith) (blank-clear n) in
    (b, rw positive e, v, m, off)

-- NumClear sees the bits only.
pub num_clear_ext :
    {b c : Bitmap}
    → IsValid b
    → IsValid c
    → b.num_bits ≡ c.num_bits
    → ((j : ℕ) → is_set b j ≡ is_set c j)
    → num_clear b ≡ num_clear c
num_clear_ext {b} {c} v w n same =
    num_clear_lem v ∙ ap₂ (λ f m. ok (clear_below f m)) (fun_ext same) n ∙ sym (num_clear_lem w)
