-- ===== src/PTable/Exec.antt =====
-- userprog/Ptable.cc, ExecUpdate and ExecV, and userprog/PCB.cc, Exec and ExecV: a new process.
use nachos_project_2_os_subj.Base.{
  ℕ, Option, none, some, Result, ok, ◌>>=◌, deref, if◌then◌else◌, slt, minus_one,
}
use nachos_project_2_os_subj.Synch.{passed, asleep, p, v}
use nachos_project_2_os_subj.STable.{CString, same_string}
use nachos_project_2_os_subj.PTable.{PTable, new_pcb, put, enter, get_free_slot}

-- What ExecUpdate and ExecV come to: an answer, with the process that is forked and the thread that
-- V on bmsem makes ready, or a thread that sleeps in P on bmsem.
pub data Executed : Type 0 where
  answered : PTable → ℕ → (forked woken : Option ℕ) → Executed
  exec_sleeps : PTable → Executed

abbrev pub leave : PTable → ℕ → Option ℕ → Executed
leave t answer forked = answered (record t { bmsem = (v t.bmsem).0 }) answer forked (v t.bmsem).1

-- The rest of both calls, from GetFreeSlot on, with PCB::Exec.
unfoldable pub start_process : PTable → Option CString → ℕ → Result Executed
unfolding get_free_slot new_pcb enter v
start_process t name current =
    let index = get_free_slot t in
    if slt index 0
    then ok (leave t minus_one none)
    else (deref name >>= λ n. new_pcb index n >>= λ b. enter b.mutex current >>= λ held. ok (
        leave
          (put t index
            (some (record b { parent_id = some current; thread = some index; mutex = (v held).0 })))
          index (some index)))

-- PTable::ExecUpdate by a thread of name `self`, one round of P on bmsem; `none` is a null pointer.
unfoldable pub exec_update : PTable → Option CString → CString → ℕ → Result Executed
unfolding start_process p v
exec_update t name self current = p t.bmsem current >>= λ round. elim round [
  | asleep q ↦ ok (exec_sleeps (record t { bmsem = q }))
  | passed q ↦
      let inside : PTable = record t { bmsem = q } in
      elim name [
        | none ↦ ok (leave inside minus_one none)
        | some n ↦
            if same_string n self
            then ok (leave inside minus_one none)
            else start_process inside (some n) current
      ]
]

-- PTable::ExecV, with argv[0], which is null where there are no arguments.
unfoldable pub exec_v : PTable → Option CString → ℕ → Result Executed
unfolding start_process p
exec_v t name current = p t.bmsem current >>= λ round. elim round [
  | asleep q ↦ ok (exec_sleeps (record t { bmsem = q }))
  | passed q ↦ start_process (record t { bmsem = q }) name current
]
