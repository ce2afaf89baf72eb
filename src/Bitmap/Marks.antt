-- ===== src/Bitmap/Marks.antt =====
-- Mark, Clear and Test of one bit, as updates of a function from bit numbers to Booleans.
use Prim.Native.Nat.{bit_and, bit_or}
use nachos_project_2_os_subj.Base.{
  ℕ, zero, suc, ◌-◌, ◌*◌, ◌/◌, ◌%◌, ◌^◌, ◌≤◌, ◌<◌, ◌≡◌, refl, ap, arith, List, [], ◌∷◌, sle, slt,
  ◌&&◌, lt→ltb, Bool, true, false, not, ok, if◌then◌else◌, ◌==◌, length, set, get_or, get_elem?,
  some, signed_range, length-set, get_or-set_self, get_or-set_ne,
}
use nachos_project_2_os_subj.Bitmap.{Bitmap, bits_in_word, test, mark, clear}
use nachos_project_2_os_subj.Bitmap.Bits.{
  bit_at, bit_at-or, bit_at-and, bit_at-pow, bit_at-not, bit_at-le, bit_and-pow, pow_pos, pow_lt,
}

-- The words hold all the bits, and `numBits` is a positive `int`.
pub record IsValid (b : Bitmap) : Type 0 where
  pub enough : b.num_bits ≤ bits_in_word * length b.map
  pub small : b.num_bits < 2 ^ 31

unfoldable pub word_of : Bitmap → ℕ → ℕ
word_of b i = get_or b.map (i / bits_in_word) 0

same_word : (b : Bitmap) (i j : ℕ) → i / bits_in_word ≡ j / bits_in_word → word_of b i ≡ word_of b j
unfolding word_of
same_word b i j e = ap (λ k. get_or b.map k 0) e

-- Whether bit `i` is on.
unfoldable pub is_set : Bitmap → ℕ → Bool
is_set b i = bit_at (i % bits_in_word) (word_of b i) == 1

get_elem?-get_or : (xs : List ℕ) (i : ℕ) → i < length xs → get_elem? xs i ≡ some (get_or xs i 0)
get_elem?-get_or [] i h = elim h [ ]
get_elem?-get_or (x ∷ xs) zero h = refl
get_elem?-get_or (x ∷ xs) (suc i) h = get_elem?-get_or xs i (omega arith)

-- The word test of the code.
and-test : (k w : ℕ) → not (bit_and w (2 ^ k) == 0) ≡ (bit_at k w == 1)
and-test k w = ground (arith, bit_and-pow k w, bit_at-le k w, pow_pos k)

abbrev or_bit : ℕ → ℕ → ℕ
or_bit w k = bit_or w (2 ^ k)

abbrev and_not_bit : ℕ → ℕ → ℕ
and_not_bit w k = bit_and w (2 ^ 32 - 1 - 2 ^ k)

or_bit_lem : (w k j : ℕ) → (bit_at j (or_bit w k) == 1) ≡ (if k == j then true else bit_at j w == 1)
or_bit_lem w k j = ground (arith, bit_at-or j w (2 ^ k), bit_at-pow j k, bit_at-le j w)

and_not_bit_lem :
    (w k j : ℕ)
    → k < 32
    → j < 32
    → (bit_at j (and_not_bit w k) == 1) ≡ (if k == j then false else bit_at j w == 1)
and_not_bit_lem w k j hk hj = ground (
  arith,
  bit_at-and j w (2 ^ 32 - 1 - 2 ^ k),
  bit_at-not 32 j (2 ^ k) (pow_lt k 32 hk) hj,
  bit_at-pow j k,
  bit_at-le j w,
)

-- The bitmap with another word for bit `i`.
pub with_word : Bitmap → ℕ → (ℕ → ℕ → ℕ) → Bitmap
unfolding word_of
with_word b i f = record b {
  map = set b.map (i / bits_in_word) (f (word_of b i) (i % bits_in_word));
}

pub marked : Bitmap → ℕ → Bitmap
marked b i = with_word b i or_bit

pub cleared : Bitmap → ℕ → Bitmap
cleared b i = with_word b i and_not_bit

module _ {b : Bitmap} (v : IsValid b) (i : ℕ) (h : i < b.num_bits) where
  word_there : get_elem? b.map (i / bits_in_word) ≡ some (word_of b i)
  unfolding word_of
  word_there = get_elem?-get_or b.map (i / bits_in_word) (omega (arith, v.enough))

  guarded : (sle 0 i && slt i b.num_bits) ≡ true
  guarded = rw (signed_range i b.num_bits (omega (arith, v.small)) v.small) (lt→ltb i b.num_bits h)

  pub test_lem : test b i ≡ ok (is_set b i)
  unfolding test is_set
  test_lem = rw (guarded, word_there) (ap ok (and-test (i % bits_in_word) (word_of b i)))

  word_of-with_word :
      (f : ℕ → ℕ → ℕ) (j : ℕ)
      → word_of (with_word b i f) j ≡ (
          if i / bits_in_word == j / bits_in_word
          then f (word_of b i) (i % bits_in_word)
          else word_of b j)
  unfolding word_of with_word
  word_of-with_word f j = ground (
    arith,
    get_or-set_self b.map (i / bits_in_word)
        (f (get_or b.map (i / bits_in_word) 0) (i % bits_in_word)) 0,
    get_or-set_ne b.map (i / bits_in_word) (j / bits_in_word)
        (f (get_or b.map (i / bits_in_word) 0) (i % bits_in_word)) 0,
    v.enough,
  )

  pub with_word-IsValid : (f : ℕ → ℕ → ℕ) → IsValid (with_word b i f)
  unfolding with_word
  with_word-IsValid f = record {
    enough = rw (length-set b.map (i / bits_in_word) (f (word_of b i) (i % bits_in_word))) v.enough;
    small = v.small;
  }

  pub is_set-marked : (j : ℕ) → is_set (marked b i) j ≡ (if i == j then true else is_set b j)
  unfolding is_set marked
  is_set-marked j = ground (
    arith,
    word_of-with_word or_bit j,
    or_bit_lem (word_of b i) (i % bits_in_word) (j % bits_in_word),
    same_word b i j,
  )

  pub is_set-cleared : (j : ℕ) → is_set (cleared b i) j ≡ (if i == j then false else is_set b j)
  unfolding is_set cleared
  is_set-cleared j = ground (
    arith,
    word_of-with_word and_not_bit j,
    and_not_bit_lem (word_of b i) (i % bits_in_word) (j % bits_in_word),
    same_word b i j,
  )

module _ {b : Bitmap} (v : IsValid b) (i : ℕ) (h : i < b.num_bits) where
  test-with_word : (f : ℕ → ℕ → ℕ) → test (with_word b i f) i ≡ ok (is_set (with_word b i f) i)
  unfolding with_word
  test-with_word f = test_lem {b = with_word b i f} (with_word-IsValid v i h f) i h

  -- Mark of a bit in range never fails an ASSERT and sets that bit.
  pub mark_lem : mark b i ≡ ok (marked b i)
  unfolding mark marked with_word
  mark_lem =
      rw (guarded v i h, word_there v i h, test-with_word or_bit)
        (ground (arith, is_set-marked v i h i))

  -- Clear of a bit in range never fails an ASSERT and clears that bit.
  pub clear_lem : clear b i ≡ ok (cleared b i)
  unfolding clear cleared with_word
  clear_lem =
      rw (guarded v i h, word_there v i h, test-with_word and_not_bit)
        (ground (arith, is_set-cleared v i h i))

  pub marked-IsValid : IsValid (marked b i)
  unfolding marked
  marked-IsValid = with_word-IsValid v i h or_bit

  pub cleared-IsValid : IsValid (cleared b i)
  unfolding cleared
  cleared-IsValid = with_word-IsValid v i h and_not_bit

pub num_bits-marked : (b : Bitmap) (i : ℕ) → (marked b i).num_bits ≡ b.num_bits
unfolding marked with_word
num_bits-marked b i = refl

pub num_bits-cleared : (b : Bitmap) (i : ℕ) → (cleared b i).num_bits ≡ b.num_bits
unfolding cleared with_word
num_bits-cleared b i = refl
