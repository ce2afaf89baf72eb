-- ===== src/AddrSpace/Contents.antt =====
-- What the loader writes into the frames of a new page table.
use nachos_project_2_os_subj.Base.{
  ℕ, zero, suc, ◌+◌, ◌-◌, ◌*◌, ◌/◌, ◌≤◌, ◌<◌, ◌≡◌, refl, arith, true, false, ◌&&◌, List, [], ◌∷◌,
  ok, some, leb, ltb, if◌then◌else◌, length, u32, get_or, get_elem?,
}
use nachos_project_2_os_subj.Machine.{TranslationEntry, page_size, num_phys_pages, memory_size}
use nachos_project_2_os_subj.AddrSpace.Load.{OpenFile, Segment, copy_in, load_pages}
use nachos_project_2_os_subj.AddrSpace.Allocate.{maps, covers, Distinct}

-- Every frame of the table is in the memory.
abbrev pub Framed : List TranslationEntry → Type 0
Framed [] = Unit
Framed (entry ∷ entries) = (entry.physical_page < num_phys_pages) × Framed entries

-- A host read gives no more bytes than it is asked for.
abbrev pub IsFile : OpenFile → Type 0
IsFile file = (position n : ℕ) → length (file position n) ≤ n

abbrev pub overlay : (ℕ → ℕ) → ℕ → List ℕ → ℕ → ℕ
overlay f a bytes j = if leb a j && ltb j (a + length bytes) then get_or bytes (j - a) 0 else f j

copy_in_within :
    (f : ℕ → ℕ) (a : ℕ) (bytes : List ℕ)
    → a + length bytes ≤ memory_size
    → copy_in f a bytes ≡ ok (overlay f a bytes)
unfolding copy_in
copy_in_within f a bytes h = ground arith

-- The bytes of page `i` of a segment.
abbrev pub page_of : OpenFile → Segment → ℕ → List ℕ
page_of file s i = file (u32 (s.in_file_addr + i * page_size)) page_size

pub maps-get_elem? :
    (table : List TranslationEntry) (n : ℕ) {e : TranslationEntry}
    → get_elem? table n ≡ some e
    → maps table e.physical_page ≡ true
maps-get_elem? [] n g = cc
maps-get_elem? (x ∷ xs) zero g = ground arith
maps-get_elem? (x ∷ xs) (suc n) g = ground (arith, maps-get_elem? xs n g)

-- Page `n` of the table holds page `i + n` of the segment in the file, as far as the file goes;
-- what lies behind has its value of `f`.
abbrev pub Holds : OpenFile → Segment → List TranslationEntry → ℕ → (ℕ → ℕ) → (ℕ → ℕ) → Type 0
Holds file s table i f f' =
    (n : ℕ) (e : TranslationEntry)
    → get_elem? table n ≡ some e
    → (o : ℕ) → o < page_size
    → f' (e.physical_page * page_size + o) ≡ (
        if ltb o (length (page_of file s (i + n)))
        then get_or (page_of file s (i + n)) o 0
        else f (e.physical_page * page_size + o))

module _ (file : OpenFile) (s : Segment) (h : IsFile file) (z : s.virtual_addr ≡ 0) where
  frame_address :
      (e : TranslationEntry)
      → e.physical_page < num_phys_pages
      → u32 (s.virtual_addr + e.physical_page * page_size) ≡ e.physical_page * page_size
  frame_address e l = omega arith

  page_fits :
      (f : ℕ → ℕ) (e : TranslationEntry) (i : ℕ)
      → e.physical_page < num_phys_pages
      → copy_in f (e.physical_page * page_size) (page_of file s i)
        ≡ ok (overlay f (e.physical_page * page_size) (page_of file s i))
  page_fits f e i l =
      copy_in_within f (e.physical_page * page_size) (page_of file s i)
        (omega (arith, h (u32 (s.in_file_addr + i * page_size)) page_size))

  Holds-cons :
      (e : TranslationEntry) (es : List TranslationEntry) (i : ℕ) (f f' : ℕ → ℕ)
      → maps es e.physical_page ≡ false
      → ((a : ℕ)
          → covers es a ≡ false
          → f' a ≡ overlay f (e.physical_page * page_size) (page_of file s i) a)
      → Holds file s es (i + 1) (overlay f (e.physical_page * page_size) (page_of file s i)) f'
      → Holds file s (e ∷ es) i f f'
  Holds-cons e es i f f' apart same rest zero e' g o q =
      let here : i + 0 ≡ i = omega arith in
      let mine : e ≡ e' = cc in
      let frame : (e.physical_page * page_size + o) / page_size ≡ e.physical_page = omega arith in
      rw (here, ← mine) (ground (arith, same (e.physical_page * page_size + o) (rw frame apart)))
  Holds-cons e es i f f' apart same rest (suc n) e' g o q =
      let shift : i + suc n ≡ i + 1 + n = omega arith in
      rw shift (
        ground (
          arith,
          rest n e' g o q,
          maps-get_elem? es n g,
          h (u32 (s.in_file_addr + i * page_size)) page_size,
        ))

  -- A segment at virtual address 0 is read page by page into the frames of a table of distinct
  -- frames of the memory, and nowhere else.
  pub load_pages_lem :
      (table : List TranslationEntry) (i : ℕ) (f : ℕ → ℕ)
      → Framed table
      → Distinct table
      → (f' : ℕ → ℕ) × (load_pages file s table i f ≡ ok f')
        × ((a : ℕ) → covers table a ≡ false → f' a ≡ f a)
        × Holds file s table i f f'
  unfolding load_pages
  load_pages_lem [] i f l d = (f, refl, λ a q. refl, λ n e g o q. cc)
  load_pages_lem (e ∷ es) i f l d =
      let f₁ = overlay f (e.physical_page * page_size) (page_of file s i) in
      let (f', r, same, held) = load_pages_lem es (i + 1) f₁ l.1 d.1 in
      (
        f',
        rw (frame_address e l.0, page_fits f e i l.0) r,
        λ a q. ground (arith, same a, h (u32 (s.in_file_addr + i * page_size)) page_size),
        Holds-cons e es i f f' d.0 same held,
      )
