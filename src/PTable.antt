-- ===== src/PTable.antt =====
-- userprog/PCB.h, userprog/PCB.cc, userprog/Ptable.h and userprog/Ptable.cc: the processes, in a
-- table of ten slots, and the semaphores by which a parent waits for the exit code of a child. A
-- process has one thread, named by the process's number.
pub mod Exec
pub mod Exit
pub mod Slots
pub mod Handshake
pub mod Orders
pub mod Started
pub mod Refused
use nachos_project_2_os_subj.Base.{
  ℕ, zero, suc, ◌+◌, ◌-◌, Bool, true, false, not, ◌||◌, List, [], ◌∷◌, Option, none, some, Result,
  ok, err, wild_access, halted, blocked, ◌>>=◌, deref, if◌then◌else◌, ◌==◌, ltb, slt, get_elem?,
  set, replicate, length, minus_one, u32,
}
use nachos_project_2_os_subj.Synch.{Semaphore, semaphore, Round, passed, asleep, p, v}
use nachos_project_2_os_subj.STable.{CString, same_string}

-- `none` is a number that is not initialised, in `exitcode` and `numwait`, and a null pointer in
-- `thread`, which names the thread by its processID.
pub record Pcb : Type 0 where
  pub joinsem : Semaphore
  pub exitsem : Semaphore
  pub mutex : Semaphore
  pub exitcode : Option ℕ
  pub numwait : Option ℕ
  pub process_id : ℕ
  pub filename : CString
  pub thread : Option ℕ
  pub parent_id : Option ℕ

-- The size of PCB::filename.
abbrev pub filename_size : ℕ
filename_size = 128

-- PCB::PCB(int, char *); its strcpy writes the name and a 0.
unfoldable pub new_pcb : ℕ → CString → Result Pcb
new_pcb pid name =
    if ltb (length name) filename_size
    then ok (record {
      joinsem = semaphore 0;
      exitsem = semaphore 0;
      mutex = semaphore 1;
      exitcode = none;
      numwait = none;
      process_id = pid;
      filename = name;
      thread = none;
      parent_id = none;
    })
    else err wild_access

abbrev pub max_process : ℕ
max_process = 10

pub record PTable : Type 0 where
  pub pcb : List (Option Pcb)
  pub bmsem : Semaphore

-- pcb[i] where it is used as a process.
unfoldable pub process_at : PTable → ℕ → Result Pcb
process_at t i = deref (get_elem? t.pcb i) >>= λ slot. deref slot

abbrev pub put : PTable → ℕ → Option Pcb → PTable
put t i slot = record t { pcb = set t.pcb i slot }

-- P where no other thread can be inside.
unfoldable pub enter : Semaphore → ℕ → Result Semaphore
unfolding p
enter s thread = p s thread >>= λ round. elim round [ passed q ↦ ok q | asleep q ↦ err blocked ]

-- PCB::IncNumWait and PCB::DecNumWait, on a counter that may not be initialised.
unfoldable pub inc_num_wait : Pcb → ℕ → Result Pcb
unfolding enter v
inc_num_wait b thread = do
  held ← enter b.mutex thread
  let n : Option ℕ = elim b.numwait [ none ↦ none | some n ↦ some (u32 (n + 1)) ]
  ok (record b { numwait = n; mutex = (v held).0 })

unfoldable pub dec_num_wait : Pcb → ℕ → Result Pcb
unfolding enter v
dec_num_wait b thread = do
  held ← enter b.mutex thread
  let n : Option ℕ = elim b.numwait [ none ↦ none | some n ↦ some (if slt 0 n then n - 1 else n) ]
  ok (record b { numwait = n; mutex = (v held).0 })

abbrev is_free : Option Pcb → Bool
is_free none = true
is_free (some b) = false

unfoldable pub free_slot_from : List (Option Pcb) → ℕ → ℕ
free_slot_from [] i = minus_one
free_slot_from (slot ∷ slots) i = if is_free slot then i else free_slot_from slots (i + 1)

-- PTable::GetFreeSlot
unfoldable pub get_free_slot : PTable → ℕ
unfolding free_slot_from
get_free_slot t = free_slot_from t.pcb 0

-- PTable::PTable, by the main thread; parentID is -1.
unfoldable pub new_table : CString → Result PTable
unfolding new_pcb
new_table name = do
  b ← new_pcb 0 name
  let main : Pcb = record b { thread = some 0; parent_id = some minus_one }
  ok (record { pcb = some main ∷ replicate 9 none; bmsem = semaphore 1 })
