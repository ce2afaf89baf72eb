-- ===== src/AddrSpace/Allocate.antt =====
-- The loop of the constructor that takes one frame for each page.
use nachos_project_2_os_subj.Base.{
  ℕ, zero, suc, ◌+◌, ◌*◌, ◌/◌, ◌≤◌, ◌<◌, ◌≡◌, refl, ◌∙◌, ap, arith, Bool, true, false, ◌||◌, ◌&&◌,
  List, [], ◌∷◌, ok, inl, inr, ◌==◌, leb, ltb, if◌then◌else◌, length, dec_lt,
}
use nachos_project_2_os_subj.Bitmap.{Bitmap, find_and_set}
use nachos_project_2_os_subj.Bitmap.Marks.{
  IsValid, is_set, marked, is_set-marked, marked-IsValid, num_bits-marked,
}
use nachos_project_2_os_subj.Bitmap.Search.{
  clear_below, clear_below_one_less, clear_below-all, find_and_set_lem,
}
use nachos_project_2_os_subj.Machine.{TranslationEntry, page_size, num_phys_pages}
use nachos_project_2_os_subj.AddrSpace.{Frames, with_memory, fresh_entry, zero_frame, allocate}

-- Whether some entry of a page table names frame `j`.
abbrev pub maps : List TranslationEntry → ℕ → Bool
maps [] j = false
maps (entry ∷ entries) j = entry.physical_page == j || maps entries j

-- No frame is named twice.
abbrev pub Distinct : List TranslationEntry → Type 0
Distinct [] = Unit
Distinct (entry ∷ entries) = (maps entries entry.physical_page ≡ false) × Distinct entries

-- The pages are numbered from `i` on, present and writable.
abbrev pub Fresh : ℕ → List TranslationEntry → Type 0
Fresh i [] = Unit
Fresh i (entry ∷ entries) = (entry ≡ fresh_entry i entry.physical_page) × Fresh (i + 1) entries

-- Byte `a` lies in a frame of the table.
abbrev pub covers : List TranslationEntry → ℕ → Bool
covers table a = maps table (a / page_size)

-- What a page table owns that was made from bitmap `b` and memory `f`, leaving `b'` and `f'`.
pub record Owns (b b' : Bitmap) (f f' : ℕ → ℕ) (i : ℕ) (table : List TranslationEntry)
    : Type 0 where
  pub valid : IsValid b'
  pub bits : b'.num_bits ≡ b.num_bits
  pub distinct : Distinct table
  pub fresh : Fresh i table
  pub was_clear : (j : ℕ) → maps table j ≡ true → (is_set b j ≡ false) × (j < num_phys_pages)
  pub taken : (j : ℕ) → is_set b' j ≡ (is_set b j || maps table j)
  pub zeroed : (a : ℕ) → f' a ≡ (if covers table a then 0 else f a)

abbrev zeroed_frame : (ℕ → ℕ) → ℕ → ℕ → ℕ
zeroed_frame f frame a =
    if leb (frame * page_size) a && ltb a (frame * page_size + page_size) then 0 else f a

zero_frame_within :
    (f : ℕ → ℕ) (frame : ℕ)
    → frame < num_phys_pages
    → zero_frame f frame ≡ ok (zeroed_frame f frame)
unfolding zero_frame
zero_frame_within f frame l = ground arith

Owns-step :
    {b b₁ b' : Bitmap} {f f₁ f' : ℕ → ℕ} (i frame : ℕ) (table : List TranslationEntry)
    → b₁.num_bits ≡ b.num_bits
    → is_set b frame ≡ false
    → ((j : ℕ) → is_set b₁ j ≡ (if frame == j then true else is_set b j))
    → frame < num_phys_pages
    → ((a : ℕ) → f₁ a ≡ (if frame == a / page_size then 0 else f a))
    → Owns b₁ b' f₁ f' (i + 1) table
    → Owns b b' f f' i (fresh_entry i frame ∷ table)
Owns-step i frame table bits off mark lt zeroed o = record {
  valid = o.valid;
  bits = o.bits ∙ bits;
  distinct = (ground (arith, o.was_clear frame, mark frame), o.distinct);
  fresh = (refl, o.fresh);
  was_clear = λ j h. ground (arith, o.was_clear j, mark j);
  taken = λ j. ground (arith, o.taken j, mark j);
  zeroed = λ a. ground (arith, o.zeroed a, zeroed a);
}

Owns-none : {b : Bitmap} {f : ℕ → ℕ} (i : ℕ) → IsValid b → Owns b b f f i []
Owns-none i v = record {
  valid = v;
  bits = refl;
  distinct = tt;
  fresh = tt;
  was_clear = λ j h. cc;
  taken = λ j. ground arith;
  zeroed = λ a. refl;
}

-- With `left` frames of the memory free, FindAndSet finds one of them.
first_frame :
    {b : Bitmap} (left : ℕ)
    → IsValid b
    → num_phys_pages ≤ b.num_bits
    → suc left ≤ clear_below (is_set b) num_phys_pages
    → (frame : ℕ) × (frame < num_phys_pages)
      × (is_set b frame ≡ false)
      × (find_and_set b ≡ ok (marked b frame, frame))
      × (left ≤ clear_below (is_set (marked b frame)) num_phys_pages)
first_frame {b} left v big enough = elim (find_and_set_lem v) [
  | inl (all, r) ↦
      absurd (omega (arith, clear_below-all (is_set b) num_phys_pages (λ j l. all j (omega arith))))
  | inr (frame, l, off, low, r) ↦ elim (dec_lt frame num_phys_pages) [
    | yes within ↦ (
      frame,
      within,
      off,
      r,
      omega (
        arith,
        clear_below_one_less (is_set b) (is_set (marked b frame)) frame num_phys_pages within off
            (is_set-marked v frame l),
      ),
    )
    | no beyond ↦
        absurd
          (omega (arith, clear_below-all (is_set b) num_phys_pages (λ j q. low j (omega arith))))
  ]
]

-- With as many frames of the memory free as there are pages to fill, the loop over the pages fills
-- them all: with distinct frames that were free, whose bits it takes and whose bytes it zeroes, and
-- no others.
pub allocate_total :
    (left i : ℕ) (k : Frames)
    → IsValid k.phys_page_map
    → num_phys_pages ≤ k.phys_page_map.num_bits
    → left ≤ clear_below (is_set k.phys_page_map) num_phys_pages
    → (b' : Bitmap) × (f' : ℕ → ℕ) × (table : List TranslationEntry) × (allocate left i k
        ≡ ok (with_memory (record k { phys_page_map = b' }) f', table))
      × Owns k.phys_page_map b' k.machine.main_memory f' i table
      × (length table ≡ left)
unfolding allocate
allocate_total zero i k v big enough =
    (k.phys_page_map, k.machine.main_memory, [], refl, Owns-none i v, refl)
allocate_total (suc left) i k v big enough =
    let (frame, within, off, r, rest) = first_frame left v big enough in
    let b₁ = marked k.phys_page_map frame in
    let l : frame < k.phys_page_map.num_bits = omega arith in
    let f₁ = zeroed_frame k.machine.main_memory frame in
    let (b', f', table, e, o, n) =
      allocate_total left (i + 1) (with_memory (record k { phys_page_map = b₁ }) f₁)
        (marked-IsValid v frame l) (omega (arith, num_bits-marked k.phys_page_map frame)) rest in
    (
      b',
      f',
      fresh_entry i frame ∷ table,
      rw (r, zero_frame_within k.machine.main_memory frame within, e),
      Owns-step i frame table (num_bits-marked k.phys_page_map frame) off (is_set-marked v frame l)
          within (λ a. ground arith) o,
      ap suc n,
    )
