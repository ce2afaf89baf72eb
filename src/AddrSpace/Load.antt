-- ===== src/AddrSpace/Load.antt =====
-- userprog/addrspace.cc: reading an executable into a new address space. The Makefiles define
-- RDATA, and the hosts are little-endian.
use nachos_project_2_os_subj.Base.{
  ℕ, ◌+◌, ◌-◌, ◌*◌, ◌^◌, Bool, true, false, not, ◌&&◌, List, [], ◌∷◌, Option, none, some, Result,
  ok, err, wild_access, blocked, ◌>>=◌, ◌>>◌, guard, assert, deref, u32, div_round_up, ltb, leb,
  slt, ◌==◌, if◌then◌else◌, get_elem?, get_or, length,
}
use nachos_project_2_os_subj.Bitmap.{num_clear}
use nachos_project_2_os_subj.Machine.{TranslationEntry, page_size, num_phys_pages, memory_size}
use nachos_project_2_os_subj.AddrSpace.{AddrSpace, Frames, with_memory, allocate}

pub record Segment : Type 0 where
  pub virtual_addr : ℕ
  pub in_file_addr : ℕ
  pub size : ℕ

pub record NoffHeader : Type 0 where
  pub noff_magic : ℕ
  pub code : Segment
  pub init_data : Segment
  pub readonly_data : Segment
  pub uninit_data : Segment

abbrev pub noff_magic_number : ℕ
noff_magic_number = 0xbadfad

abbrev pub user_stack_size : ℕ
user_stack_size = 1024

-- An open file of the host: the bytes that reading `numBytes` bytes at a position gives, which may
-- be fewer.
abbrev pub OpenFile : Type 0
OpenFile = ℕ → ℕ → List ℕ

-- WordToHost on a little-endian host.
abbrev pub word_to_host : ℕ → ℕ
word_to_host word = word

swap_segment : Segment → Segment
swap_segment s = record {
  virtual_addr = word_to_host s.virtual_addr;
  in_file_addr = word_to_host s.in_file_addr;
  size = word_to_host s.size;
}

swap_header : NoffHeader → NoffHeader
unfolding swap_segment
swap_header h = record {
  noff_magic = word_to_host h.noff_magic;
  code = swap_segment h.code;
  init_data = swap_segment h.init_data;
  readonly_data = swap_segment h.readonly_data;
  uninit_data = swap_segment h.uninit_data;
}

-- An `int` of the header in memory. A byte that the file did not give is not initialised.
word_at : List ℕ → ℕ → Result ℕ
word_at bytes i = do
  a ← deref (get_elem? bytes i)
  b ← deref (get_elem? bytes (i + 1))
  c ← deref (get_elem? bytes (i + 2))
  d ← deref (get_elem? bytes (i + 3))
  ok (a + 256 * b + 256 ^ 2 * c + 256 ^ 3 * d)

segment_at : List ℕ → ℕ → Result Segment
unfolding word_at
segment_at bytes i = do
  v ← word_at bytes i
  f ← word_at bytes (i + 4)
  s ← word_at bytes (i + 8)
  ok (record { virtual_addr = v; in_file_addr = f; size = s })

-- sizeof(NoffHeader)
abbrev header_size : ℕ
header_size = 52

-- ReadAt of the header, SwapHeader where its test asks for it, and the ASSERT on the magic number.
unfoldable pub read_header : OpenFile → Result NoffHeader
unfolding segment_at swap_header
read_header file = do
  let bytes = file 0 header_size
  magic ← word_at bytes 0
  code ← segment_at bytes 4
  init_data ← segment_at bytes 16
  readonly_data ← segment_at bytes 28
  uninit_data ← segment_at bytes 40
  let h : NoffHeader = record {
    noff_magic = magic;
    code = code;
    init_data = init_data;
    readonly_data = readonly_data;
    uninit_data = uninit_data;
  }
  let swap = not (magic == noff_magic_number) && word_to_host magic == noff_magic_number
  let h' = if swap then swap_header h else h
  assert (h'.noff_magic == noff_magic_number)
  ok h'

-- A read of a file into physical memory.
unfoldable pub copy_in : (ℕ → ℕ) → ℕ → List ℕ → Result (ℕ → ℕ)
copy_in memory a bytes =
    if ltb 0 (length bytes) && ltb memory_size (a + length bytes)
    then err wild_access
    else ok (λ j. if leb a j && ltb j (a + length bytes) then get_or bytes (j - a) 0 else memory j)

-- The loop over the pages for one segment, from page `i` on.
unfoldable pub load_pages :
    OpenFile → Segment → List TranslationEntry → ℕ → (ℕ → ℕ) → Result (ℕ → ℕ)
unfolding copy_in
load_pages file s [] i memory = ok memory
load_pages file s (entry ∷ entries) i memory =
    copy_in memory (u32 (s.virtual_addr + entry.physical_page * page_size))
      (file (u32 (s.in_file_addr + i * page_size)) page_size)
    >>= load_pages file s entries (i + 1)

unfoldable pub load_segment : OpenFile → Segment → List TranslationEntry → (ℕ → ℕ) → Result (ℕ → ℕ)
unfolding load_pages
load_segment file s table memory =
    if slt 0 s.size then load_pages file s table 0 memory else ok memory

-- P and V on addrLock, with no other thread to run.
abbrev lock : Frames → Result Frames
lock k = guard (not (k.addr_lock == 0)) blocked >> ok (record k { addr_lock = k.addr_lock - 1 })

abbrev unlock : Frames → Frames
unlock k = record k { addr_lock = k.addr_lock + 1 }

-- Page table and contents for `size` bytes, once the lock is held: `false` where there are too few
-- free frames.
unfoldable pub fill : OpenFile → NoffHeader → ℕ → Frames → Result (Frames × AddrSpace × Bool)
unfolding load_segment allocate num_clear
fill file h size k = do
  let num_pages = div_round_up size page_size
  assert (leb num_pages num_phys_pages)
  free ← num_clear k.phys_page_map
  if ltb free num_pages then ok (k, record { page_table = none; num_pages = 0 }, false) else do
    allocated ← allocate num_pages 0 k
    let table = allocated.1
    memory ← load_segment file h.code table allocated.0.machine.main_memory
    memory' ← load_segment file h.init_data table memory
    ok (
      with_memory allocated.0 memory',
      record { page_table = some table; num_pages = num_pages },
      true,
    )

-- AddrSpace::AddrSpace(char *fileName), with what Open(fileName) returned.
unfoldable pub construct : Option OpenFile → Frames → Result (Frames × AddrSpace)
unfolding read_header fill
construct opened k = do
  file ← deref opened
  h ← read_header file
  k' ← lock k
  r ← fill file h (u32 (h.code.size + h.init_data.size + h.uninit_data.size + user_stack_size)) k'
  ok (unlock r.0, r.1)

-- The read-only segment goes to the physical address that its virtual address spells.
load_readonly : OpenFile → Segment → (ℕ → ℕ) → Result (ℕ → ℕ)
unfolding copy_in
load_readonly file s memory =
    if slt 0 s.size then copy_in memory s.virtual_addr (file s.in_file_addr s.size) else ok memory

-- AddrSpace::Load
unfoldable pub load : Option OpenFile → AddrSpace → Frames → Result (Frames × AddrSpace × Bool)
unfolding read_header fill load_readonly
load none s k = ok (k, s, false)
load (some file) s k = do
  h ← read_header file
  k' ← lock k
  r ←
      fill file h
        (u32 (
          h.code.size + h.readonly_data.size + h.init_data.size + h.uninit_data.size
          + user_stack_size))
        k'
  if r.2
      then (load_readonly file h.readonly_data r.0.machine.main_memory >>= λ memory.
          ok (unlock (with_memory r.0 memory), r.1, true))
      else ok (unlock r.0, record s { num_pages = 0 }, false)
