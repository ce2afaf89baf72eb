-- ===== src/UserMemory.antt =====
-- userprog/exception.cc: IncreasePC, and the copying of strings between a user program and the
-- kernel, User2System and System2User.
pub mod Post
pub mod Kept
use nachos_project_2_os_subj.Base.{
  ℕ, zero, suc, ◌+◌, ◌-◌, ◌%◌, ◌^◌, Bool, true, false, ◌||◌, List, [], ◌∷◌, ◌++◌, Option, none,
  some, Result, ok, err, wild_access, no_memory, ◌>>=◌, deref, if◌then◌else◌, ◌==◌, leb, slt, u32,
  minus_one, replicate, length,
}
use nachos_project_2_os_subj.Machine.{
  Machine, pc_reg, next_pc_reg, prev_pc_reg, read_register, write_register,
}
use nachos_project_2_os_subj.Machine.Memory.{read_mem, write_mem, sign_extend}

unfoldable pub increase_pc : Machine → Result Machine
unfolding read_register write_register
increase_pc m = do
  pc ← read_register m pc_reg
  m₁ ← write_register m prev_pc_reg pc
  pc₁ ← read_register m₁ pc_reg
  m₂ ← write_register m₁ pc_reg (u32 (pc₁ + 4))
  pc₂ ← read_register m₂ pc_reg
  write_register m₂ next_pc_reg (u32 (pc₂ + 4))

-- The loop of User2System, with `left` rounds to go: the characters before the first 0.
unfoldable pub read_chars : ℕ → ℕ → Machine → Result (List ℕ × Machine)
unfolding read_mem
read_chars zero a m = ok ([], m)
read_chars (suc left) a m = do
  r ← read_mem m a 1
  c ← deref r.0
  elim (c == 0) [
    | true ↦ ok ([], r.1)
    | false ↦ read_chars left (u32 (a + 1)) r.1 >>= λ rest. ok (c % 256 ∷ rest.0, rest.1)
  ]

-- User2System: the string in the kernel's buffer, and the machine with the flags of the pages read.
unfoldable pub user_to_system : Machine → ℕ → ℕ → Result (List ℕ × Machine)
unfolding read_chars
user_to_system m virt_addr limit =
    if slt (u32 (limit + 1)) 0
    then err no_memory
    else read_chars (if slt limit 0 then 0 else limit) virt_addr m

-- The kernel's buffer of `limit + 1` bytes that holds a string.
abbrev pub buffer_of : ℕ → List ℕ → List ℕ
buffer_of limit chars = chars ++ replicate (u32 (limit + 1) - length chars) 0

-- The loop of System2User from character `i` on, with `left` characters to go.
unfoldable pub write_chars : ℕ → List ℕ → ℕ → ℕ → Machine → Result (ℕ × Machine)
unfolding write_mem
write_chars left [] a i m = err wild_access
write_chars left (b ∷ bytes) a i m = do
  r ← write_mem m a 1 (sign_extend b)
  elim (leb left 1 || b == 0) [
    | true ↦ ok (i + 1, r.1)
    | false ↦ write_chars (left - 1) bytes (u32 (a + 1)) (i + 1) r.1
  ]

-- System2User
unfoldable pub system_to_user : Machine → ℕ → ℕ → List ℕ → Result (ℕ × Machine)
unfolding write_chars
system_to_user m virt_addr len buffer =
    if slt len 0
    then ok (minus_one, m)
    else if len == 0
    then ok (0, m)
    else write_chars len buffer virt_addr 0 m
