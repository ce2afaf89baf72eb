-- ===== src/STable.antt =====
-- userprog/Sem.h, userprog/Sem.cc, userprog/STable.h and userprog/STable.cc: the named semaphores of
-- the user programs, in a table of ten slots.
pub mod Names
pub mod Calls
use nachos_project_2_os_subj.Base.{
  ℕ, zero, suc, ◌+◌, Bool, true, false, ◌&&◌, List, [], ◌∷◌, Option, none, some, Result, ok, err,
  wild_access, ◌>>=◌, if◌then◌else◌, ◌==◌, leb, ltb, get_elem?, set, replicate, length, minus_one,
  slt, deref,
}
use nachos_project_2_os_subj.Synch.{Semaphore, semaphore, Round, passed, asleep, p, v}

-- A C string is the list of its bytes, without the 0 at the end.
abbrev pub CString : Type 0
CString = List ℕ

-- strcmp(a, b) == 0
unfoldable pub same_string : CString → CString → Bool
same_string [] [] = true
same_string [] (y ∷ ys) = false
same_string (x ∷ xs) [] = false
same_string (x ∷ xs) (y ∷ ys) = x == y && same_string xs ys

pub record Sem : Type 0 where
  pub name : CString
  pub sem : Semaphore

-- The size of Sem::name.
abbrev pub name_size : ℕ
name_size = 50

-- Sem::Sem; its strcpy writes the name and a 0.
unfoldable pub new_sem : CString → ℕ → Result Sem
new_sem name initial =
    if ltb (length name) name_size
    then ok (record { name = name; sem = semaphore initial })
    else err wild_access

abbrev pub max_semaphore : ℕ
max_semaphore = 10

abbrev pub STable : Type 0
STable = List (Option Sem)

-- STable::STable
abbrev pub empty_table : STable
empty_table = replicate max_semaphore none

abbrev pub has_name : CString → Option Sem → Bool
has_name name none = false
has_name name (some s) = same_string s.name name

-- The first slot from `i` on that holds a semaphore of the name.
unfoldable pub find_name : STable → CString → ℕ → Option ℕ
unfolding same_string
find_name [] name i = none
find_name (slot ∷ slots) name i =
    if has_name name slot then some i else find_name slots name (i + 1)

abbrev is_free : Option Sem → Bool
is_free none = true
is_free (some s) = false

unfoldable pub find_free : STable → ℕ → ℕ
find_free [] i = minus_one
find_free (slot ∷ slots) i = if is_free slot then i else find_free slots (i + 1)

-- STable::FindFreeSlot
unfoldable pub find_free_slot : STable → ℕ
unfolding find_free
find_free_slot t = find_free t 0

-- STable::Create: -1 for a name that is taken and for a full table.
unfoldable pub create : STable → CString → ℕ → Result (STable × ℕ)
unfolding find_name find_free_slot new_sem
create t name initial = elim (find_name t name 0) [
  | some i ↦ ok (t, minus_one)
  | none ↦
      if slt (find_free_slot t) 0
      then ok (t, minus_one)
      else (new_sem name initial >>= λ s. ok (set t (find_free_slot t) (some s), 0))
]

-- What a call of Wait comes to: a result, or a thread that sleeps in P.
pub data Waited : Type 0 where
  returned : STable → ℕ → Waited
  sleeps : STable → Waited

unfoldable pub slot_at : STable → ℕ → Result Sem
slot_at t i = deref (get_elem? t i) >>= λ slot. deref slot

-- STable::Wait, one round of P
unfoldable pub wait : STable → CString → ℕ → Result Waited
unfolding find_name slot_at p
wait t name thread = elim (find_name t name 0) [
  | none ↦ ok (returned t minus_one)
  | some i ↦ slot_at t i >>= λ s. p s.sem thread >>= λ round. elim round [
    | passed q ↦ ok (returned (set t i (some (record s { sem = q }))) 0)
    | asleep q ↦ ok (sleeps (set t i (some (record s { sem = q }))))
  ]
]

-- STable::Signal, with the thread that V makes ready
unfoldable pub signal : STable → CString → Result (STable × ℕ × Option ℕ)
unfolding find_name slot_at v
signal t name = elim (find_name t name 0) [
  | none ↦ ok (t, minus_one, none)
  | some i ↦ slot_at t i >>= λ s.
      let woken = v s.sem in ok (set t i (some (record s { sem = woken.0 })), 0, woken.1)
]
