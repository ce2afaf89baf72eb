-- ===== src/AddrSpace.antt =====
-- userprog/noff.h, userprog/addrspace.h and userprog/addrspace.cc: an address space is a page table
-- over frames of the physical memory that the kernel's bitmap gives out.
pub mod Load
pub mod Allocate
pub mod Contents
pub mod Fill
pub mod Isolation
pub mod Exhausted
pub mod Lifetime
pub mod Entry
pub mod Agree
use nachos_project_2_os_subj.Base.{
  ℕ, zero, suc, ◌+◌, ◌*◌, ◌/◌, ◌%◌, ◌^◌, Bool, true, false, not, ◌&&◌, List, [], ◌∷◌, Option, none,
  some, ◌||◌, Result, ok, err, wild_access, ◌>>=◌, ◌>>◌, assert, deref, u32, sub32, ltb, leb, slt,
  if◌then◌else◌, get_elem?, set, length,
}
use nachos_project_2_os_subj.Bitmap
use nachos_project_2_os_subj.Machine
use nachos_project_2_os_subj.Bitmap.{Bitmap, clear, find_and_set}
use nachos_project_2_os_subj.Machine.{
  Machine, TranslationEntry, ExceptionType, no_exception, read_only_page, bus_error, address_error,
  page_size, num_phys_pages, num_total_regs, memory_size, stack_reg, pc_reg, next_pc_reg,
  write_register,
}

-- `page_table` is `none` where the constructor leaves the pointer unset.
pub record AddrSpace : Type 0 where
  pub page_table : Option (List TranslationEntry)
  pub num_pages : ℕ

-- The parts of the kernel that address spaces share: Kernel::machine, gPhysPageBitMap, and the
-- value of the semaphore addrLock.
pub record Frames : Type 0 where
  pub machine : Machine
  pub phys_page_map : Bitmap
  pub addr_lock : ℕ

-- The part of Kernel::Initialize in threads/kernel.cc that makes them.
unfoldable pub init_frames : Result Frames
init_frames = do
  b ← Bitmap.init 512
  ok (record { machine = Machine.init; phys_page_map = b; addr_lock = 1 })

abbrev pub with_memory : Frames → (ℕ → ℕ) → Frames
with_memory k memory = record k { machine = record k.machine { main_memory = memory } }

-- bzero(&mainMemory[frame * PageSize], PageSize)
unfoldable pub zero_frame : (ℕ → ℕ) → ℕ → Result (ℕ → ℕ)
zero_frame memory frame =
    if leb num_phys_pages frame
    then err wild_access
    else ok (λ j.
      if leb (frame * page_size) j && ltb j (frame * page_size + page_size) then 0 else memory j)

abbrev pub fresh_entry : ℕ → ℕ → TranslationEntry
fresh_entry i frame = record {
  virtual_page = i;
  physical_page = frame;
  valid = true;
  read_only = false;
  used = false;
  dirty = false;
}

-- The loop that fills the page table, from page `i` on with `left` pages to go.
unfoldable pub allocate : ℕ → ℕ → Frames → Result (Frames × List TranslationEntry)
allocate zero i k = ok (k, [])
allocate (suc left) i k = do
  found ← find_and_set k.phys_page_map
  memory ← zero_frame k.machine.main_memory found.1
  rest ← allocate left (i + 1) (with_memory (record k { phys_page_map = found.0 }) memory)
  ok (rest.0, fresh_entry i found.1 ∷ rest.1)

pub clear_frames : List TranslationEntry → Bitmap → Result Bitmap
clear_frames [] b = ok b
clear_frames (entry ∷ entries) b = clear b entry.physical_page >>= clear_frames entries

-- AddrSpace::~AddrSpace
unfoldable pub destroy : AddrSpace → Frames → Result Frames
unfolding clear_frames
destroy s k = elim s.page_table [
  | none ↦ if ltb 0 s.num_pages then err wild_access else ok k
  | some table ↦ clear_frames table k.phys_page_map >>= λ b. ok (record k { phys_page_map = b })
]

unfoldable pub zero_registers : ℕ → ℕ → Machine → Result Machine
zero_registers zero i m = ok m
zero_registers (suc left) i m = write_register m i 0 >>= zero_registers left (i + 1)

-- What InitRegisters does once every register is 0.
unfoldable pub start_registers : AddrSpace → Machine → Result Machine
start_registers s cleared = do
  started ← write_register cleared pc_reg 0
  delayed ← write_register started next_pc_reg 4
  write_register delayed stack_reg (sub32 (s.num_pages * page_size) 16)

-- AddrSpace::InitRegisters
unfoldable pub init_registers : AddrSpace → Machine → Result Machine
unfolding zero_registers start_registers
init_registers s m = zero_registers num_total_regs 0 m >>= start_registers s

-- AddrSpace::RestoreState
unfoldable pub restore_state : AddrSpace → Machine → Machine
restore_state s m = record m { page_table = s.page_table; page_table_size = s.num_pages }

-- AddrSpace::Translate, on a page table that is there; it also gives the table with its flags.
pub data Placed : Type 0 where
  refused : ExceptionType → Placed
  placed : (paddr : ℕ) (table : List TranslationEntry) → Placed

unfoldable pub translate : List TranslationEntry → ℕ → ℕ → Bool → Result Placed
translate table num_pages vaddr writing =
    if leb num_pages (vaddr / page_size) then ok (refused address_error) else do
      entry ← deref (get_elem? table (vaddr / page_size))
      if writing && entry.read_only
          then ok (refused read_only_page)
          else if not (slt entry.physical_page num_phys_pages)
          then ok (refused bus_error)
          else let paddr = u32 (entry.physical_page * page_size + vaddr % page_size) in
            let entry' = record entry { used = true; dirty = entry.dirty || writing } in
            assert (ltb paddr memory_size)
            >> ok (placed paddr (set table (vaddr / page_size) entry'))
