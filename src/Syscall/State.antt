-- ===== src/Syscall/State.antt =====
-- What the system calls work on: the machine, the open files, the tables of semaphores and
-- processes, and the host.
use nachos_project_2_os_subj.Base.{
  ℕ, List, [], ◌∷◌, Option, none, some, Bool, ◌||◌, not, Result, ok, ◌>>=◌, deref, get_elem?, set,
  slt,
}
use nachos_project_2_os_subj.Machine.{Machine, read_register, write_register}
use nachos_project_2_os_subj.UserMemory.{increase_pc, user_to_system}
use nachos_project_2_os_subj.FileSystem.{OpenFile, Files, max_files}
use nachos_project_2_os_subj.STable.{STable, CString}
use nachos_project_2_os_subj.PTable.{PTable}

-- `current` is the process that runs, `thread_name` the name of its thread, and `world` the state
-- of the host.
pub record Kernel (W : Type 0) : Type 0 where
  pub machine : Machine
  pub files : Files
  pub sems : STable
  pub processes : PTable
  pub world : W
  pub current : ℕ
  pub thread_name : CString

-- A call returns to the program, or its thread sleeps in it, or the thread is finished; `ready` are
-- the threads that it has made ready, in order.
pub data Outcome (W : Type 0) : Type 0 where
  returned : Kernel W → (ready : List ℕ) → Outcome W
  sleeping : Kernel W → (ready : List ℕ) → Outcome W
  ended : Kernel W → (ready : List ℕ) → Outcome W

abbrev pub listed : Option ℕ → List ℕ
listed none = []
listed (some thread) = thread ∷ []

abbrev pub outside : ℕ → ℕ → Bool
outside low id = slt id low || not (slt id max_files)

module _ {W : Type 0} where
  abbrev pub arg : Kernel W → ℕ → Result ℕ
  arg k n = read_register k.machine n

  -- IncreasePC, with no result.
  unfoldable pub finish : Kernel W → Result (Outcome W)
  finish k = increase_pc k.machine >>= λ m. ok (returned (record k { machine = m }) [])

  -- WriteRegister(2, result) and IncreasePC.
  unfoldable pub answer_ready : Kernel W → ℕ → List ℕ → Result (Outcome W)
  answer_ready k result ready = write_register k.machine 2 result >>= λ m.
      increase_pc m >>= λ m'. ok (returned (record k { machine = m' }) ready)

  unfoldable pub answer : Kernel W → ℕ → Result (Outcome W)
  answer k result = answer_ready k result []

  -- A string of the program at the address in a register.
  unfoldable pub string_arg : Kernel W → ℕ → ℕ → Result (Kernel W × CString)
  string_arg k n limit = arg k n >>= λ a.
      user_to_system k.machine a limit >>= λ r. ok (record k { machine = r.1 }, r.0)

  -- openfile[id]
  abbrev pub file_at : Kernel W → ℕ → Result (Option OpenFile)
  file_at k id = deref (get_elem? k.files.openfile id)

  abbrev pub put_file : Kernel W → ℕ → Option OpenFile → Kernel W
  put_file k id f = record k { files = record (k.files) { openfile = set k.files.openfile id f } }

  abbrev pub put_name : Kernel W → ℕ → CString → Kernel W
  put_name k id name = record k {
    files = record (k.files) { filename = set k.files.filename id name };
  }
