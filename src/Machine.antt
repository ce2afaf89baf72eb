-- ===== src/Machine.antt =====
-- machine/machine.h, machine/machine.cc, machine/translate.h and the exception cases of
-- userprog/exception.cc: the simulated MIPS machine, its registers and its traps into the kernel.
pub mod Translate
pub mod Memory
pub mod Bounds
pub mod Bytes
pub mod RoundTrip
pub mod Refusals
use nachos_project_2_os_subj.Base.{
  ℕ, ◌*◌, Bool, ◌&&◌, List, Option, none, Result, ok, err, trapped, ◌>>=◌, ◌>>◌, assert, slt, sle,
  if◌then◌else◌, ◌==◌,
}

-- The numbers of the header, and of the registers with a purpose of their own.
abbrev pub page_size : ℕ
page_size = 128

abbrev pub num_phys_pages : ℕ
num_phys_pages = 128

abbrev pub memory_size : ℕ
memory_size = num_phys_pages * page_size

abbrev pub stack_reg : ℕ
stack_reg = 29

abbrev pub ret_addr_reg : ℕ
ret_addr_reg = 31

abbrev pub hi_reg : ℕ
hi_reg = 32

abbrev pub lo_reg : ℕ
lo_reg = 33

abbrev pub pc_reg : ℕ
pc_reg = 34

abbrev pub next_pc_reg : ℕ
next_pc_reg = 35

abbrev pub prev_pc_reg : ℕ
prev_pc_reg = 36

abbrev pub load_reg : ℕ
load_reg = 37

abbrev pub load_value_reg : ℕ
load_value_reg = 38

abbrev pub bad_vaddr_reg : ℕ
bad_vaddr_reg = 39

abbrev pub num_total_regs : ℕ
num_total_regs = 40

pub data ExceptionType : Type 0 where
  no_exception syscall_exception page_fault read_only_page bus_error address_error : ExceptionType
  overflow illegal_instr num_exception_types : ExceptionType

-- `used` is the field `use` of the source.
pub record TranslationEntry : Type 0 where
  pub virtual_page : ℕ
  pub physical_page : ℕ
  pub valid : Bool
  pub read_only : Bool
  pub used : Bool
  pub dirty : Bool

-- `none` is a null pointer. The page table in use is held here; a switch to another address space
-- replaces it. A byte of memory is a number below 256.
pub record Machine : Type 0 where
  pub registers : ℕ → ℕ
  pub main_memory : ℕ → ℕ
  pub tlb : Option (List TranslationEntry)
  pub page_table : Option (List TranslationEntry)
  pub page_table_size : ℕ

-- Without USE_TLB, as every Makefile of the program builds it.
pub init : Machine
init = record {
  registers = λ _. 0;
  main_memory = λ _. 0;
  tlb = none;
  page_table = none;
  page_table_size = 0;
}

abbrev pub update : (ℕ → ℕ) → ℕ → ℕ → ℕ → ℕ
update f i v j = if i == j then v else f j

unfoldable pub read_register : Machine → ℕ → Result ℕ
read_register m num = assert (sle 0 num && slt num num_total_regs) >> ok (m.registers num)

unfoldable pub write_register : Machine → ℕ → ℕ → Result Machine
write_register m num value = do
  assert (sle 0 num && slt num num_total_regs)
  ok (record m { registers = update m.registers num value })

-- Machine::DelayedLoad. Register 0 stays 0.
unfoldable pub delayed_load : Machine → ℕ → ℕ → Machine
delayed_load m next_reg next_val =
    let loaded = update m.registers (m.registers load_reg) (m.registers load_value_reg) in
    record m {
      registers = update (update (update loaded load_reg next_reg) load_value_reg next_val) 0 0;
    }

-- The place in the enumeration.
abbrev pub exception_number : ExceptionType → ℕ
exception_number no_exception = 0
exception_number syscall_exception = 1
exception_number page_fault = 2
exception_number read_only_page = 3
exception_number bus_error = 4
exception_number address_error = 5
exception_number overflow = 6
exception_number illegal_instr = 7
exception_number num_exception_types = 8

-- ExceptionHandler on everything but a system call: all but NoException print a message that names
-- the exception, and halt.
unfoldable pub trap : ExceptionType → Result (Unit {0})
trap no_exception = ok tt
trap which = err (trapped (exception_number which))

-- Machine::RaiseException for an exception that is no system call.
unfoldable pub raise_exception : Machine → ExceptionType → ℕ → Result Machine
unfolding trap delayed_load
raise_exception m which bad_vaddr = do
  trap which
  ok (delayed_load (record m { registers = update m.registers bad_vaddr_reg bad_vaddr }) 0 0)
