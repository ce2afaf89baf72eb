-- ===== src/Tests/Programs.antt =====
-- A program of four bytes of code, whose address space takes nine pages.
use nachos_project_2_os_subj.Base.{
  ℕ, ◌≡◌, ◌<◌, ◌≤◌, zero, suc, refl, arith, Bool, true, false, List, ◌∷◌, [], ◌++◌, some, none, ok,
  err, wild_access, length, replicate, dec_lt,
}
use nachos_project_2_os_subj.Bitmap.{Bitmap, num_clear}
use nachos_project_2_os_subj.Bitmap.Marks.{is_set, word_of}
use nachos_project_2_os_subj.Bitmap.Search.{clear_below}
use nachos_project_2_os_subj.Machine
use nachos_project_2_os_subj.Machine.{Machine, TranslationEntry, num_phys_pages}
use nachos_project_2_os_subj.AddrSpace.{AddrSpace, Frames, with_memory, destroy}
use nachos_project_2_os_subj.AddrSpace.Load.{OpenFile, NoffHeader, Segment, construct, read_header}
use nachos_project_2_os_subj.AddrSpace.Allocate.{maps}
use nachos_project_2_os_subj.AddrSpace.Contents.{IsFile}
use nachos_project_2_os_subj.AddrSpace.Fill.{pages_of, IsProgram, IsReady, Built}
use nachos_project_2_os_subj.AddrSpace.Lifetime.{
  construct_no_room, construct_builds, destroy-construct, constructs_apart,
}
use nachos_project_2_os_subj.AddrSpace.Exhausted.{construct_exhausted}

abbrev bytes_from : ℕ → List ℕ → List ℕ
bytes_from zero bytes = bytes
bytes_from (suc n) [] = []
bytes_from (suc n) (b ∷ bytes) = bytes_from n bytes

abbrev first_bytes : ℕ → List ℕ → List ℕ
first_bytes zero bytes = []
first_bytes (suc n) [] = []
first_bytes (suc n) (b ∷ bytes) = b ∷ first_bytes n bytes

length-first_bytes : (n : ℕ) (bytes : List ℕ) → length (first_bytes n bytes) ≤ n
length-first_bytes zero bytes = omega arith
length-first_bytes (suc n) [] = omega arith
length-first_bytes (suc n) (b ∷ bytes) = omega (arith, length-first_bytes n bytes)

-- The magic number, the code segment of 4 bytes at virtual address 0, three empty segments, and the
-- code.
abbrev image : List ℕ
image =
    173
    ∷ 223
    ∷ 186
    ∷ 0
    ∷ 0
    ∷ 0
    ∷ 0
    ∷ 0
    ∷ 52
    ∷ 0
    ∷ 0
    ∷ 0
    ∷ 4
    ∷ 0
    ∷ 0
    ∷ 0
    ∷ (replicate {A = ℕ} 36 0 ++ 12 ∷ 34 ∷ 56 ∷ 78 ∷ [])

abbrev program : OpenFile
program position n = first_bytes n (bytes_from position image)

abbrev nothing : Segment
nothing = record { virtual_addr = 0; in_file_addr = 0; size = 0 }

abbrev program_header : NoffHeader
program_header = record {
  noff_magic = 0xbadfad;
  code = record { virtual_addr = 0; in_file_addr = 52; size = 4 };
  init_data = nothing;
  readonly_data = nothing;
  uninit_data = nothing;
}

program-IsFile : IsFile program
program-IsFile position n = length-first_bytes n (bytes_from position image)

program-IsProgram : IsProgram program program_header
unfolding read_header
program-IsProgram = record { reads = program-IsFile; header = refl; at_zero = refl; no_data = refl }

-- A bitmap of 512 bits: the first argument is the word of each 32 bits of the memory's 128, the
-- second that of the others.
abbrev frames_map : ℕ → ℕ → Bitmap
frames_map word beyond = record {
  num_bits = 512;
  num_words = 16;
  map = word ∷ word ∷ word ∷ word ∷ replicate 12 beyond;
}

abbrev frames : ℕ → ℕ → Frames
frames word beyond = record {
  machine = Machine.init;
  phys_page_map = frames_map word beyond;
  addr_lock = 1;
}

frames-IsReady : (word beyond : ℕ) → IsReady (frames word beyond)
frames-IsReady word beyond = record {
  valid = record { enough = omega arith; small = omega arith };
  big = omega arith;
  unlocked = omega arith;
}

free_frames : clear_below (is_set (frames_map 0 0)) num_phys_pages ≡ 128
unfolding clear_below is_set word_of
free_frames = refl

all_set : (f : ℕ → Bool) (n : ℕ) → clear_below f n ≡ 0 → (j : ℕ) → j < n → f j ≡ true
unfolding clear_below
all_set f zero e j l = absurd (omega arith)
all_set f (suc n) e j l = elim (dec_lt j n) [
  | yes below ↦ all_set f n (omega arith) j below
  | no last ↦ let here : j ≡ n = omega arith in rw here (ground arith)
]

abbrev all_ones : ℕ
all_ones = 0xffffffff

no_free_frames : clear_below (is_set (frames_map all_ones 0)) num_phys_pages ≡ 0
unfolding clear_below is_set word_of
no_free_frames = refl

bits_beyond : num_clear (frames_map all_ones 0) ≡ ok 384
unfolding num_clear
bits_beyond = refl

no_clear_bit : num_clear (frames_map all_ones all_ones) ≡ ok 0
unfolding num_clear
no_clear_bit = refl

construct_exhausted_example : construct (some program) (frames all_ones 0) ≡ err wild_access
construct_exhausted_example =
    construct_exhausted program program_header (frames all_ones 0) 8 384 program-IsProgram.header
      (frames-IsReady all_ones 0)
      (all_set (is_set (frames_map all_ones 0)) num_phys_pages no_free_frames) refl (omega arith)
      bits_beyond (omega arith)

construct_no_room_example :
    construct (some program) (frames all_ones all_ones)
    ≡ ok (frames all_ones all_ones, record { page_table = none; num_pages = 0 })
construct_no_room_example =
    construct_no_room (frames-IsReady all_ones all_ones) program program_header 0
      program-IsProgram.header no_clear_bit (omega arith) (omega arith)

construct_builds_example :
    (b' : Bitmap) × (f' : ℕ → ℕ) × (table : List TranslationEntry) × (construct
        (some program)
        (frames 0 0)
      ≡ ok (
        with_memory (record (frames 0 0) { phys_page_map = b' }) f',
        record { page_table = some table; num_pages = pages_of program_header },
      ))
    × Built program program_header (frames 0 0) b' f' table
construct_builds_example =
    construct_builds program-IsProgram (frames-IsReady 0 0) (omega (arith, free_frames))

destroy-construct_example :
    (k' k'' : Frames) × (s : AddrSpace) × (construct (some program) (frames 0 0) ≡ ok (k', s))
    × (destroy s k' ≡ ok k'')
    × ((j : ℕ) → is_set k''.phys_page_map j ≡ is_set (frames_map 0 0) j)
    × (num_clear k''.phys_page_map ≡ num_clear (frames_map 0 0))
    × (k''.addr_lock ≡ 1)
destroy-construct_example =
    destroy-construct program-IsProgram (frames-IsReady 0 0) (omega (arith, free_frames))

constructs_apart_example :
    (k₁ k₂ : Frames) × (t u : List TranslationEntry) × (construct (some program) (frames 0 0)
      ≡ ok (k₁, record { page_table = some t; num_pages = pages_of program_header }))
    × (construct (some program) k₁
        ≡ ok (k₂, record { page_table = some u; num_pages = pages_of program_header }))
    × ((j : ℕ) → maps t j ≡ true → maps u j ≡ false)
constructs_apart_example =
    constructs_apart program program program_header program_header (frames 0 0) program-IsProgram
      program-IsProgram (frames-IsReady 0 0) (omega (arith, free_frames))
