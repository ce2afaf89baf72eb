-- ===== src/PTable/Exit.antt =====
-- userprog/Ptable.cc, JoinUpdate, ExitUpdate and Remove: a parent waits for the exit code of a child,
-- and the child for its parent.
use nachos_project_2_os_subj.Base.{
  ℕ, Bool, false, not, ◌||◌, Option, none, some, Result, ok, err, halted, ◌>>=◌, deref,
  if◌then◌else◌, ◌==◌, slt, get_elem?, minus_one,
}
use nachos_project_2_os_subj.Synch.{passed, asleep, p, v}
use nachos_project_2_os_subj.PTable.{
  Pcb, PTable, process_at, put, inc_num_wait, dec_num_wait, max_process,
}

-- What JoinUpdate comes to: the answer, with the thread that ExitRelease makes ready, or a thread
-- that sleeps in JoinWait.
pub data Joined : Type 0 where
  joined : PTable → (exitcode woken : Option ℕ) → Joined
  join_sleeps : PTable → Joined

-- One round of JoinWait, and the rest of JoinUpdate once it is through.
unfoldable pub join_wait : PTable → ℕ → ℕ → Result Joined
unfolding process_at p v
join_wait t id current = do
  b ← process_at t id
  round ← p b.joinsem current
  elim round [
    | asleep q ↦ ok (join_sleeps (put t id (some (record b { joinsem = q }))))
    | passed q ↦
        let woken = v b.exitsem in
        ok (
          joined (put t id (some (record b { joinsem = q; exitsem = woken.0 }))) b.exitcode woken.1)
  ]

abbrev pub is_child : Option Pcb → ℕ → Bool
is_child none current = false
is_child (some b) current = elim b.parent_id [ none ↦ false | some parent ↦ parent == current ]

-- PTable::JoinUpdate
unfoldable pub join_update : PTable → ℕ → ℕ → Result Joined
unfolding process_at inc_num_wait join_wait
join_update t id current =
    if slt id 0 || not (slt id max_process)
    then ok (joined t (some minus_one) none)
    else (deref (get_elem? t.pcb id) >>= λ slot.
        if not (is_child slot current)
        then ok (joined t (some minus_one) none)
        else (process_at t current >>= λ a.
            inc_num_wait a current >>= λ a'. join_wait (put t current (some a')) id current))

-- What ExitUpdate comes to: the process is off the table, and its thread goes on to the destructor
-- of its PCB, which frees its space and finishes it; or the thread sleeps in ExitWait.
pub data Exited : Type 0 where
  exited : PTable → Exited
  exit_sleeps : PTable → Exited

-- PTable::Remove of the process that runs, up to the destructor of its PCB.
unfoldable pub remove : PTable → ℕ → PTable
remove t id = put t id none

-- One round of ExitWait, and Remove once it is through.
unfoldable pub exit_wait : PTable → ℕ → Result Exited
unfolding process_at p remove
exit_wait t current = do
  b ← process_at t current
  round ← p b.exitsem current
  elim round [
    | asleep q ↦ ok (exit_sleeps (put t current (some (record b { exitsem = q }))))
    | passed q ↦ ok (exited (remove (put t current (some (record b { exitsem = q }))) current))
  ]

-- PTable::ExitUpdate, with the thread that JoinRelease makes ready. The main process halts the
-- machine.
unfoldable pub exit_update : PTable → ℕ → ℕ → Result (Option ℕ × Exited)
unfolding process_at dec_num_wait exit_wait v
exit_update t code current = if current == 0 then err halted else do
  b ← process_at t current
  let t₁ = put t current (some (record b { exitcode = some code }))
  parent ← deref b.parent_id
  a ← process_at t₁ parent
  a' ← dec_num_wait a current
  let t₂ = put t₁ parent (some a')
  b' ← process_at t₂ current
  let woken = v b'.joinsem
  r ← exit_wait (put t₂ current (some (record b' { joinsem = woken.0 }))) current
  ok (woken.1, r)
