-- ===== src/Tests/Syscalls.antt =====
-- A program that adds 3 and 4 by a system call, and calls on numbers and on the open files.
use nachos_project_2_os_subj.Base.{
  ℕ, ◌+◌, ◌-◌, ◌^◌, ◌≡◌, ◌≢◌, refl, arith, true, false, [], ◌∷◌, none, some, ok, err, out_of_fuel,
  ◌==◌, if◌then◌else◌, minus_one, replicate,
}
use nachos_project_2_os_subj.Machine.{
  Machine, TranslationEntry, pc_reg, next_pc_reg, prev_pc_reg, syscall_exception, read_register,
  write_register, update,
}
use nachos_project_2_os_subj.Synch.{semaphore}
use nachos_project_2_os_subj.UserMemory.{increase_pc}
use nachos_project_2_os_subj.UserMemory.Kept.{IsUser}
use nachos_project_2_os_subj.FileSystem.{Host, OpenFile, Files}
use nachos_project_2_os_subj.Syscall.{handle, call_of, exception_handler}
use nachos_project_2_os_subj.Syscall.State.{Kernel, returned, answer, answer_ready}
use nachos_project_2_os_subj.Syscall.Transfer.{write_console, console_fuel}
use nachos_project_2_os_subj.Syscall.Transfer.Rounds.{IsSmall, write_console_ends}
use nachos_project_2_os_subj.Syscall.Console.{sc_add, print_int}
use nachos_project_2_os_subj.Syscall.Console.Decimal.{int_value, int_value-print_int}
use nachos_project_2_os_subj.Syscall.Advance.{Advanced}
use nachos_project_2_os_subj.Syscall.Advance.Handler.{exception_handler-Advanced}

-- A host whose console types newlines, and whose state counts its calls.
abbrev host : Host ℕ
host = record {
  open_existing = λ w name. (w + 1, 3);
  open_new = λ w name. (w + 1, 3);
  close = λ w file. (w + 1, 0);
  read = λ w file n. (w + 1, 0, []);
  write = λ w file bytes. (w + 1, 0);
  lseek = λ w file offset whence. (w + 1, offset);
  socket = λ w. (w + 1, 3);
  connect = λ w file ip port. (w + 1, 0);
  unlink = λ w name. (w + 1, 0);
  get_char = λ w. (w + 1, 10);
  put_char = λ w c. w + 1;
}

abbrev page : TranslationEntry
page = record {
  virtual_page = 0;
  physical_page = 0;
  valid = true;
  read_only = false;
  used = false;
  dirty = false;
}

-- SC_Add of 3 and 4, at the program counter 8; and -1 in registers 5 and 6 of another program.
abbrev adding : ℕ → ℕ
adding r =
    if r == 2 then 42 else if r == 4 then 3 else if r == 5 then 4 else if r == pc_reg then 8 else 0

abbrev machine_of : (ℕ → ℕ) → Machine
machine_of registers = record {
  registers = registers;
  main_memory = λ _. 97;
  tlb = none;
  page_table = some (page ∷ []);
  page_table_size = 1;
}

abbrev stdin : OpenFile
stdin = record { file = 3; type = some 1; is_connect = true; current_offset = 0; is_socket = false }

abbrev files : Files
files = record {
  openfile = some stdin ∷ some stdin ∷ replicate 18 none;
  filename = replicate 20 [];
}

abbrev kernel_of : (ℕ → ℕ) → Kernel ℕ
kernel_of registers = record {
  machine = machine_of registers;
  files = files;
  sems = replicate 10 none;
  processes = record { pcb = replicate 10 none; bmsem = semaphore 1 };
  world = 0;
  current = 0;
  thread_name = 97 ∷ [];
}

abbrev added : ℕ → ℕ
added = update (update (update (update adding 2 7) prev_pc_reg 8) pc_reg 12) next_pc_reg 16

added_eq :
    exception_handler host syscall_exception (kernel_of adding) ≡ ok (returned (kernel_of added) [])
unfolding exception_handler handle call_of sc_add answer answer_ready read_register write_register
    increase_pc
added_eq = refl

adding-IsUser : IsUser (machine_of adding)
unfolding IsUser
adding-IsUser = (page ∷ [], record { no_tlb = refl; paged = refl; sized = refl })

adding-IsSmall : IsSmall (machine_of adding)
unfolding IsSmall
adding-IsSmall = (page ∷ [], record { no_tlb = refl; paged = refl; sized = refl }, omega arith)

exception_handler-Advanced_example : Advanced (machine_of adding) (machine_of added)
exception_handler-Advanced_example =
    exception_handler-Advanced host (kernel_of adding) adding-IsUser (kernel_of added) [] added_eq

write_console_ends_example :
    write_console host console_fuel 0 (replicate 255 97) (machine_of adding) 0 ≢ err out_of_fuel
write_console_ends_example =
    write_console_ends host 0 (replicate 255 97) (machine_of adding) 0 adding-IsSmall

int_value-print_int_example : int_value (print_int (2 ^ 32 - 120)) ≡ 2 ^ 32 - 120
int_value-print_int_example = int_value-print_int (2 ^ 32 - 120) (omega arith) (λ e. ground arith)

abbrev negative : Kernel ℕ
negative = kernel_of (λ _. minus_one)
