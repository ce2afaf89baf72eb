-- ===== src/Machine/Memory.antt =====
-- machine/translate.cc, ReadMem and WriteMem on a little-endian host, where WordToHost and its kin
-- return their argument.
use nachos_project_2_os_subj.Base.{
  ℕ, ◌+◌, ◌-◌, ◌*◌, ◌/◌, ◌%◌, ◌^◌, Bool, true, false, Option, none, some, Result, ok, err,
  assert_failed, ◌>>=◌, ltb, if◌then◌else◌, ◌==◌,
}
use nachos_project_2_os_subj.Machine.{Machine, update, raise_exception}
use nachos_project_2_os_subj.Machine.Translate.{translate, raised, placed}

-- A `char` is signed on the hosts of the Makefiles: a byte from 128 on is a negative `int`.
abbrev pub sign_extend : ℕ → ℕ
sign_extend b = if ltb b 128 then b else b + 2 ^ 32 - 256

-- What lies at a physical address, for 1, 2 and 4 bytes.
unfoldable pub load : (ℕ → ℕ) → ℕ → ℕ → Result ℕ
load memory a size =
    if size == 1
    then ok (sign_extend (memory a))
    else if size == 2
    then ok (memory a + 256 * memory (a + 1))
    else if size == 4
    then ok (memory a + 256 * memory (a + 1) + 256 ^ 2 * memory (a + 2) + 256 ^ 3 * memory (a + 3))
    else err assert_failed

abbrev pub store1 : (ℕ → ℕ) → ℕ → ℕ → ℕ → ℕ
store1 memory a v = update memory a (v % 256)

abbrev pub store2 : (ℕ → ℕ) → ℕ → ℕ → ℕ → ℕ
store2 memory a v = store1 (store1 memory a v) (a + 1) (v / 256)

abbrev pub store4 : (ℕ → ℕ) → ℕ → ℕ → ℕ → ℕ
store4 memory a v = store2 (store2 memory a v) (a + 2) (v / 256 ^ 2)

unfoldable pub store : (ℕ → ℕ) → ℕ → ℕ → ℕ → Result (ℕ → ℕ)
store memory a size v =
    if size == 1
    then ok (store1 memory a v)
    else if size == 2
    then ok (store2 memory a v)
    else if size == 4
    then ok (store4 memory a v)
    else err assert_failed

-- `none` is the result FALSE. Machine::Translate changes the flags of the entry that it uses.
unfoldable pub read_mem : Machine → ℕ → ℕ → Result (Option ℕ × Machine)
unfolding translate raise_exception load
read_mem m addr size = do
  t ← translate m addr size false
  elim t [
    | raised which ↦ raise_exception m which addr >>= λ m'. ok (none, m')
    | placed a m' ↦ load m'.main_memory a size >>= λ v. ok (some v, m')
  ]

unfoldable pub write_mem : Machine → ℕ → ℕ → ℕ → Result (Bool × Machine)
unfolding translate raise_exception store
write_mem m addr size value = do
  t ← translate m addr size true
  elim t [
    | raised which ↦ raise_exception m which addr >>= λ m'. ok (false, m')
    | placed a m' ↦ store m'.main_memory a size value >>= λ memory.
        ok (true, record m' { main_memory = memory })
  ]
