-- ===== src/Bitmap/Updates.antt =====
-- Mark and Clear as seen through Test.
use nachos_project_2_os_subj.Base.{
  ℕ, ◌^◌, ◌<◌, ◌≤◌, ◌≡◌, ◌∙◌, arith, true, false, ok, err, assert_failed, if◌then◌else◌, ◌==◌,
  signed_range, le→ltb,
}
use nachos_project_2_os_subj.Bitmap.{Bitmap, test, mark, clear}
use nachos_project_2_os_subj.Bitmap.Marks.{
  IsValid, marked, cleared, test_lem, mark_lem, clear_lem, is_set-marked, is_set-cleared,
  marked-IsValid, cleared-IsValid, num_bits-marked, num_bits-cleared,
}

module _ (b : Bitmap) (v : IsValid b) (i : ℕ) where
  -- Mark of a bit of a valid bitmap succeeds, keeps it valid and of the same size, and afterwards
  -- Test finds that bit set and every other bit as it was.
  test-mark :
      i < b.num_bits
      → (b' : Bitmap) × (mark b i ≡ ok b')
        × IsValid b'
        × (b'.num_bits ≡ b.num_bits)
        × ((j : ℕ) → j < b.num_bits → test b' j ≡ (if i == j then ok true else test b j))
  test-mark l = (
    marked b i,
    mark_lem v i l,
    marked-IsValid v i l,
    num_bits-marked b i,
    λ j q.
        test_lem (marked-IsValid v i l) j (omega (arith, num_bits-marked b i))
        ∙ ground (arith, is_set-marked v i l j, test_lem v j q),
  )

  -- Clear of a bit of a valid bitmap succeeds, keeps it valid and of the same size, and afterwards
  -- Test finds that bit clear and every other bit as it was.
  test-clear :
      i < b.num_bits
      → (b' : Bitmap) × (clear b i ≡ ok b')
        × IsValid b'
        × (b'.num_bits ≡ b.num_bits)
        × ((j : ℕ) → j < b.num_bits → test b' j ≡ (if i == j then ok false else test b j))
  test-clear l = (
    cleared b i,
    clear_lem v i l,
    cleared-IsValid v i l,
    num_bits-cleared b i,
    λ j q.
        test_lem (cleared-IsValid v i l) j (omega (arith, num_bits-cleared b i))
        ∙ ground (arith, is_set-cleared v i l j, test_lem v j q),
  )

  -- A bit number outside the bitmap, negative ones included, fails the first ASSERT of Mark, Clear
  -- and Test.
  out_of_range :
      b.num_bits ≤ i
      → i < 2 ^ 32
      → (mark b i ≡ err assert_failed)
        × (clear b i ≡ err assert_failed)
        × (test b i ≡ err assert_failed)
  unfolding mark clear test
  out_of_range l q =
      let outside = signed_range i b.num_bits q v.small ∙ le→ltb i b.num_bits l in
      (rw outside, rw outside, rw outside)
