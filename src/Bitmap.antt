-- ===== src/Bitmap.antt =====
-- lib/bitmap.h and lib/bitmap.cc: an array of bits kept in 32-bit words.
pub mod Bits
pub mod Marks
pub mod Search
pub mod Updates
use Prim.Native.Nat.{bit_and, bit_or}
use nachos_project_2_os_subj.Base.{
  ℕ, zero, suc, ◌+◌, ◌-◌, ◌/◌, ◌%◌, ◌^◌, Bool, true, false, not, ◌&&◌, List, Result, ok, ◌>>=◌,
  ◌>>◌, assert, deref, slt, sle, if◌then◌else◌, ◌==◌, minus_one, div_round_up, get_elem?, set,
  replicate,
}

abbrev pub bits_in_word : ℕ
bits_in_word = 32

pub record Bitmap : Type 0 where
  pub num_bits : ℕ
  pub num_words : ℕ
  pub map : List ℕ

-- ASSERT(which >= 0 && which < numBits)
abbrev pub in_range : Bitmap → ℕ → Bool
in_range b which = sle 0 which && slt which b.num_bits

unfoldable pub test : Bitmap → ℕ → Result Bool
test b which = do
  assert (in_range b which)
  word ← deref (get_elem? b.map (which / bits_in_word))
  ok (not (bit_and word (2 ^ (which % bits_in_word)) == 0))

unfoldable pub mark : Bitmap → ℕ → Result Bitmap
mark b which = do
  assert (in_range b which)
  word ← deref (get_elem? b.map (which / bits_in_word))
  let b' = record b {
    map = set b.map (which / bits_in_word) (bit_or word (2 ^ (which % bits_in_word)));
  }
  t ← test b' which
  assert t
  ok b'

-- `~(1 << k)` on 32 bits is `2 ^ 32 - 1 - 2 ^ k`.
unfoldable pub clear : Bitmap → ℕ → Result Bitmap
clear b which = do
  assert (in_range b which)
  word ← deref (get_elem? b.map (which / bits_in_word))
  let b' = record b {
    map = set b.map (which / bits_in_word) (bit_and word (2 ^ 32 - 1 - 2 ^ (which % bits_in_word)));
  }
  t ← test b' which
  assert (not t)
  ok b'

-- The second loop of the constructor, with `left` rounds to go from bit `i`.
clear_from : ℕ → ℕ → Bitmap → Result Bitmap
clear_from zero i b = ok b
clear_from (suc left) i b = clear b i >>= clear_from left (i + 1)

-- The first loop writes 0 to each word.
unfoldable pub init : ℕ → Result Bitmap
unfolding clear_from clear test
init num_items = do
  assert (slt 0 num_items)
  let num_words = div_round_up num_items bits_in_word
  clear_from num_items 0
      (record { num_bits = num_items; num_words = num_words; map = replicate num_words 0 })

find_from : ℕ → ℕ → Bitmap → Result (Bitmap × ℕ)
find_from zero i b = ok (b, minus_one)
find_from (suc left) i b = do
  t ← test b i
  elim t [ true ↦ find_from left (i + 1) b | false ↦ mark b i >>= λ b'. ok (b', i) ]

-- -1 if every bit is set
unfoldable pub find_and_set : Bitmap → Result (Bitmap × ℕ)
unfolding find_from test mark
find_and_set b = find_from b.num_bits 0 b

count_from : ℕ → ℕ → Bitmap → ℕ → Result ℕ
count_from zero i b count = ok count
count_from (suc left) i b count = do
  t ← test b i
  count_from left (i + 1) b (if t then count else count + 1)

unfoldable pub num_clear : Bitmap → Result ℕ
unfolding count_from test
num_clear b = count_from b.num_bits 0 b 0
