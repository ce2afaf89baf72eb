-- ===== src/Tests/Bitmaps.antt =====
-- A bitmap of 40 bits, of which bits 0 and 2 are set.
use nachos_project_2_os_subj.Base.{
  ℕ, ◌+◌, ◌<◌, ◌≡◌, ◌⊎◌, refl, arith, true, false, ◌∷◌, [], ok, if◌then◌else◌, ◌==◌, minus_one,
}
use nachos_project_2_os_subj.Bitmap.{Bitmap, find_and_set, num_clear}
use nachos_project_2_os_subj.Bitmap.Marks.{IsValid, is_set}
use nachos_project_2_os_subj.Bitmap.Search.{find_and_set_first}

abbrev forty : Bitmap
forty = record { num_bits = 40; num_words = 2; map = 5 ∷ 0 ∷ [] }

forty-IsValid : IsValid forty
forty-IsValid = record { enough = omega arith; small = omega arith }

forty_clear : num_clear forty ≡ ok 38
unfolding num_clear
forty_clear = refl

find_and_set_first_example :
    ((◌≡◌ {A = ℕ} 38 0) × (find_and_set forty ≡ ok (forty, minus_one)))
    ⊎ ((k : ℕ) × (b' : Bitmap) × (find_and_set forty ≡ ok (b', k))
        × (k < 40)
        × (is_set forty k ≡ false)
        × ((j : ℕ) → j < k → is_set forty j ≡ true)
        × ((j : ℕ) → is_set b' j ≡ (if k == j then true else is_set forty j))
        × IsValid b'
        × (b'.num_bits ≡ 40)
        × (n : ℕ) × (num_clear b' ≡ ok n)
        × (◌≡◌ {A = ℕ} 38 (n + 1)))
find_and_set_first_example = find_and_set_first forty-IsValid 38 forty_clear
