-- ===== src/Syscall/Processes.antt =====
-- userprog/exception.cc: SC_Exec, SC_ExecV, SC_Join, SC_Exit, SC_CreateSemaphore, SC_Wait and
-- SC_Signal.
use nachos_project_2_os_subj.Base.{
  ℕ, zero, suc, ◌+◌, List, [], ◌∷◌, ◌++◌, none, some, Result, ok, err, wild_access, no_memory,
  ◌>>=◌, deref, if◌then◌else◌, ◌==◌, slt, u32, minus_one, get_elem?,
}
use nachos_project_2_os_subj.Machine.{Machine}
use nachos_project_2_os_subj.Machine.Memory.{read_mem}
use nachos_project_2_os_subj.UserMemory.{user_to_system}
use nachos_project_2_os_subj.FileSystem.{Host, open_file, delete_file}
use nachos_project_2_os_subj.STable
use nachos_project_2_os_subj.STable.{CString, create, Waited}
use nachos_project_2_os_subj.PTable.Exec.{Executed, answered, exec_sleeps, exec_update, exec_v}
use nachos_project_2_os_subj.PTable.Exit.{
  Joined, joined, join_sleeps, join_update, Exited, exited, exit_sleeps, exit_update,
}
use nachos_project_2_os_subj.Syscall.State.{
  Kernel, Outcome, sleeping, ended, listed, arg, answer, answer_ready, string_arg,
}
use nachos_project_2_os_subj.Syscall.Files.{max_file_length}

abbrev pub max_length_process_name : ℕ
max_length_process_name = 32

-- The loop of SC_ExecV: `left` strings, by the addresses at `addr`.
unfoldable pub read_args : (left addr : ℕ) → Machine → Result (List CString × Machine)
unfolding read_mem user_to_system
read_args zero addr m = ok ([], m)
read_args (suc left) addr m = do
  r ← read_mem m addr 4
  a ← deref r.0
  s ← user_to_system r.1 a max_file_length
  rest ← read_args left (u32 (addr + 4)) s.1
  ok (s.0 ∷ rest.0, rest.1)

module _ {W : Type 0} where
  -- The result of ExecUpdate or ExecV for the program.
  unfoldable pub executed : Kernel W → Executed → Result (Outcome W)
  executed k (answered t result forked woken) =
      answer_ready (record k { processes = t }) result (listed forked ++ listed woken)
  executed k (exec_sleeps t) = ok (sleeping (record k { processes = t }) [])

  unfoldable pub sc_exec : Host W → Kernel W → Result (Outcome W)
  sc_exec host k = do
    (k₁, name) ← string_arg k 4 (max_length_process_name + 1)
    let opened = open_file host name k₁.world
    let k₂ : Kernel W = record k₁ { world = opened.0 }
    elim opened.1 [
      | none ↦ answer k₂ minus_one
      | some f ↦ delete_file host f opened.0 >>= λ w.
          exec_update k₂.processes (some name) k₂.thread_name k₂.current >>= λ e.
          executed (record k₂ { world = w }) e
    ]

  unfoldable pub sc_exec_v : Kernel W → Result (Outcome W)
  sc_exec_v k = do
    argc ← arg k 4
    addr ← arg k 5
    if slt argc 0
        then err (if argc == minus_one then wild_access else no_memory)
        else (read_args argc addr k.machine >>= λ args.
            exec_v k.processes (get_elem? args.0 0) k.current >>= λ e.
            executed (record k { machine = args.1 }) e)

  -- The result of JoinUpdate for the program. An exit code that is not initialised is no value.
  unfoldable pub after_join : Kernel W → Joined → Result (Outcome W)
  after_join k (joined t exitcode woken) =
      deref exitcode >>= λ code. answer_ready (record k { processes = t }) code (listed woken)
  after_join k (join_sleeps t) = ok (sleeping (record k { processes = t }) [])

  unfoldable pub sc_join : Kernel W → Result (Outcome W)
  sc_join k = do id ← arg k 4; j ← join_update k.processes id k.current; after_join k j

  unfoldable pub after_exit : Kernel W → List ℕ → Exited → Result (Outcome W)
  after_exit k ready (exited t) = ok (ended (record k { processes = t }) ready)
  after_exit k ready (exit_sleeps t) = ok (sleeping (record k { processes = t }) ready)

  unfoldable pub sc_exit : Kernel W → Result (Outcome W)
  sc_exit k = do
    code ← arg k 4
    e ← exit_update k.processes code k.current
    after_exit k (listed e.0) e.1

  unfoldable pub sc_create_semaphore : Kernel W → Result (Outcome W)
  sc_create_semaphore k = do
    (k₁, name) ← string_arg k 4 (max_length_process_name + 1)
    value ← arg k₁ 5
    made ← create k₁.sems name value
    answer (record k₁ { sems = made.0 }) made.1

  unfoldable pub sc_signal : Kernel W → Result (Outcome W)
  sc_signal k = do
    (k₁, name) ← string_arg k 4 (max_length_process_name + 1)
    r ← STable.signal k₁.sems name
    answer_ready (record k₁ { sems = r.0 }) r.1 (listed r.2)

  unfoldable pub after_wait : Kernel W → Waited → Result (Outcome W)
  after_wait k (STable.returned t result) = answer (record k { sems = t }) result
  after_wait k (STable.sleeps t) = ok (sleeping (record k { sems = t }) [])

  unfoldable pub sc_wait : Kernel W → Result (Outcome W)
  sc_wait k = do
    (k₁, name) ← string_arg k 4 (max_length_process_name + 1)
    r ← STable.wait k₁.sems name k₁.current
    after_wait k₁ r
