-- ===== src/AddrSpace/Fill.antt =====
-- AddrSpace: page table and contents of a program that fits, and giving the frames back.
use nachos_project_2_os_subj.Base.{
  ℕ, zero, suc, ◌+◌, ◌*◌, ◌/◌, ◌≤◌, ◌<◌, ◌≡◌, refl, ◌∙◌, arith, Bool, true, false, not, ◌||◌, ◌&&◌,
  List, [], ◌∷◌, ok, inl, inr, some, if◌then◌else◌, length, dec_lt, u32, get_elem?, slt, Bool-cases,
  div_round_up, none, lt→ltb, le→ltb, le→leb,
}
use nachos_project_2_os_subj.Bitmap.{Bitmap, num_clear}
use nachos_project_2_os_subj.Bitmap.Search.{clear_below, num_clear_lem}
use nachos_project_2_os_subj.Bitmap.Marks.{
  IsValid, is_set, clear_lem, is_set-cleared, cleared-IsValid, num_bits-cleared,
}
use nachos_project_2_os_subj.Machine.{TranslationEntry, page_size, num_phys_pages}
use nachos_project_2_os_subj.AddrSpace.{Frames, with_memory, clear_frames}
use nachos_project_2_os_subj.AddrSpace.Allocate.{maps, covers, Distinct, Fresh, allocate_total}
use nachos_project_2_os_subj.AddrSpace.Contents.{
  Framed, IsFile, Holds, maps-get_elem?, load_pages_lem,
}
use nachos_project_2_os_subj.AddrSpace.Load.{
  OpenFile, NoffHeader, Segment, user_stack_size, read_header, fill, load_segment,
}

pub Framed-maps :
    (table : List TranslationEntry)
    → ((j : ℕ) → maps table j ≡ true → j < num_phys_pages)
    → Framed table
Framed-maps [] h = tt
Framed-maps (e ∷ es) h =
    (h e.physical_page (ground arith), Framed-maps es (λ j q. h j (ground arith)))

pub clear_frames_lem :
    (table : List TranslationEntry) {b : Bitmap}
    → IsValid b
    → num_phys_pages ≤ b.num_bits
    → Framed table
    → (b' : Bitmap) × (clear_frames table b ≡ ok b')
      × IsValid b'
      × (b'.num_bits ≡ b.num_bits)
      × ((j : ℕ) → is_set b' j ≡ (is_set b j && not (maps table j)))
unfolding clear_frames
clear_frames_lem [] {b} v big l = (b, refl, v, refl, λ j. ground arith)
clear_frames_lem (e ∷ es) {b} v big l =
    let within : e.physical_page < b.num_bits = omega (arith, l.0) in
    let (b', r, v', n, off) =
      clear_frames_lem es (cleared-IsValid v e.physical_page within)
        (omega (arith, num_bits-cleared b e.physical_page)) l.1 in
    (
      b',
      rw (clear_lem v e.physical_page within) r,
      v',
      n ∙ num_bits-cleared b e.physical_page,
      λ j. ground (arith, off j, is_set-cleared v e.physical_page within j),
    )

-- The size that the constructor computes, in pages.
abbrev pub pages_of : NoffHeader → ℕ
pages_of h =
    div_round_up (u32 (h.code.size + h.init_data.size + h.uninit_data.size + user_stack_size))
      page_size

-- A file that the constructor accepts, with one segment to load, at virtual address 0.
pub record IsProgram (file : OpenFile) (h : NoffHeader) : Type 0 where
  pub reads : IsFile file
  pub header : read_header file ≡ ok h
  pub at_zero : h.code.virtual_addr ≡ 0
  pub no_data : slt 0 h.init_data.size ≡ false

-- A kernel whose bitmap covers the memory, with addrLock free.
pub record IsReady (k : Frames) : Type 0 where
  pub valid : IsValid k.phys_page_map
  pub big : num_phys_pages ≤ k.phys_page_map.num_bits
  pub unlocked : 0 < k.addr_lock

-- The page table that a constructor with enough room made on a kernel `k`, and the bitmap and the
-- memory that it left.
pub record Built (file : OpenFile) (h : NoffHeader) (k : Frames) (b' : Bitmap) (f' : ℕ → ℕ)
    (table : List TranslationEntry) : Type 0 where
  pub valid : IsValid b'
  pub bits : b'.num_bits ≡ k.phys_page_map.num_bits
  pub pages : length table ≡ pages_of h
  pub distinct : Distinct table
  pub fresh : Fresh 0 table
  pub was_clear :
      (j : ℕ) → maps table j ≡ true → (is_set k.phys_page_map j ≡ false) × (j < num_phys_pages)
  pub taken : (j : ℕ) → is_set b' j ≡ (is_set k.phys_page_map j || maps table j)
  pub outside : (a : ℕ) → covers table a ≡ false → f' a ≡ k.machine.main_memory a
  pub code : slt 0 h.code.size ≡ true → Holds file h.code table 0 (λ _. 0) f'

pub fill_no_room :
    (file : OpenFile) (h : NoffHeader) (size : ℕ) (k : Frames) (free : ℕ)
    → num_clear k.phys_page_map ≡ ok free
    → free < div_round_up size page_size
    → div_round_up size page_size ≤ num_phys_pages
    → fill file h size k ≡ ok (k, record { page_table = none; num_pages = 0 }, false)
unfolding fill
fill_no_room file h size k free e few fits = rw (le→leb _ _ fits, e, lt→ltb _ _ few)

load_no_data :
    (file : OpenFile) (s : Segment) (table : List TranslationEntry) (f : ℕ → ℕ)
    → slt 0 s.size ≡ false
    → load_segment file s table f ≡ ok f
unfolding load_segment
load_no_data file s table f e = rw e

-- The code segment, whether it is empty or not.
load_code :
    (file : OpenFile) (s : Segment) (table : List TranslationEntry) (f : ℕ → ℕ)
    → IsFile file
    → s.virtual_addr ≡ 0
    → Framed table
    → Distinct table
    → (f' : ℕ → ℕ) × (load_segment file s table f ≡ ok f')
      × ((a : ℕ) → covers table a ≡ false → f' a ≡ f a)
      × (slt 0 s.size ≡ true → Holds file s table 0 f f')
unfolding load_segment
load_code file s table f h z l d = elim (Bool-cases (slt 0 s.size)) [
  | inl some_code ↦
      let (f', r, same, held) = load_pages_lem file s h z table 0 f l d in
      (f', rw some_code r, same, λ q. held)
  | inr no_code ↦ (f, rw no_code, λ a q. refl, λ q. cc)
]

clear_below_mono : (f : ℕ → Bool) (m n : ℕ) → m ≤ n → clear_below f m ≤ clear_below f n
unfolding clear_below
clear_below_mono f zero zero l = omega arith
clear_below_mono f (suc m) zero l = absurd (omega arith)
clear_below_mono f m (suc n) l = elim (dec_lt n m) [
  | yes top ↦ let e : m ≡ suc n = omega arith in rw e (omega arith)
  | no below ↦ omega (arith, clear_below_mono f m n (omega arith))
]

clear_below-le : (f : ℕ → Bool) (n : ℕ) → clear_below f n ≤ n
unfolding clear_below
clear_below-le f zero = omega arith
clear_below-le f (suc n) = ground (arith, clear_below-le f n)

covers_frame :
    (table : List TranslationEntry) (n : ℕ) {e : TranslationEntry} (o : ℕ)
    → get_elem? table n ≡ some e
    → o < page_size
    → covers table (e.physical_page * page_size + o) ≡ true
covers_frame table n {e} o g q =
    let frame : (e.physical_page * page_size + o) / page_size ≡ e.physical_page = omega arith in
    rw frame (maps-get_elem? table n g)

-- The frames were zeroed before the code was read into them.
Holds-zeroed :
    (file : OpenFile) (s : Segment) (table : List TranslationEntry) (i : ℕ) (f f₀ f' : ℕ → ℕ)
    → ((a : ℕ) → f₀ a ≡ (if covers table a then 0 else f a))
    → Holds file s table i f₀ f'
    → Holds file s table i (λ _. 0) f'
Holds-zeroed file s table i f f₀ f' zeroed held n e g o q =
    ground
      (arith, held n e g o q, zeroed (e.physical_page * page_size + o), covers_frame table n o g q)

pub fill_builds :
    {file : OpenFile} {h : NoffHeader} (p : IsProgram file h) (k : Frames)
    → IsValid k.phys_page_map
    → num_phys_pages ≤ k.phys_page_map.num_bits
    → pages_of h ≤ clear_below (is_set k.phys_page_map) num_phys_pages
    → (b' : Bitmap) × (f' : ℕ → ℕ) × (table : List TranslationEntry) × (fill file h
          (u32 (h.code.size + h.init_data.size + h.uninit_data.size + user_stack_size))
          k
        ≡ ok (
          with_memory (record k { phys_page_map = b' }) f',
          record { page_table = some table; num_pages = pages_of h },
          true,
        ))
      × Built file h k b' f' table
unfolding fill
fill_builds {file} {h} p k v big enough =
    let fits : pages_of h ≤ num_phys_pages =
      omega (arith, clear_below-le (is_set k.phys_page_map) num_phys_pages) in
    let room : pages_of h ≤ clear_below (is_set k.phys_page_map) k.phys_page_map.num_bits = omega (
      arith,
      clear_below_mono (is_set k.phys_page_map) num_phys_pages k.phys_page_map.num_bits big,
    ) in
    let (b', f₀, table, e, o, n) = allocate_total (pages_of h) 0 k v big enough in
    let framed = Framed-maps table (λ j q. (o.was_clear j q).1) in
    let (f', loaded, same, held) =
      load_code file h.code table f₀ p.reads p.at_zero framed o.distinct in
    (
      b',
      f',
      table,
      rw
          (
            le→leb (pages_of h) num_phys_pages fits,
            num_clear_lem v,
            le→ltb (clear_below (is_set k.phys_page_map) k.phys_page_map.num_bits) (pages_of h)
                room,
            e,
            loaded,
            load_no_data file h.init_data table f' p.no_data,
          )
          refl,
      record {
        valid = o.valid;
        bits = o.bits;
        pages = n;
        distinct = o.distinct;
        fresh = o.fresh;
        was_clear = o.was_clear;
        taken = o.taken;
        outside = λ a q. ground (arith, same a q, o.zeroed a);
        code = λ q. Holds-zeroed file h.code table 0 k.machine.main_memory f₀ f' o.zeroed (held q);
      },
    )
