-- ===== src/Syscall/Console.antt =====
-- userprog/exception.cc: SC_Add, SC_PrintString, SC_ReadString and SC_PrintInt.
pub mod Decimal
use nachos_project_2_os_subj.Base.{
  ℕ, zero, suc, ◌+◌, ◌-◌, ◌/◌, ◌%◌, List, [], ◌∷◌, Bool, true, false, Result, ok, err, wild_access,
  no_memory, ◌>>=◌, if◌then◌else◌, ◌==◌, slt, u32, sub32, length,
}
use nachos_project_2_os_subj.Machine.{read_register}
use nachos_project_2_os_subj.UserMemory.{user_to_system, system_to_user}
use nachos_project_2_os_subj.FileSystem.{Host}
use nachos_project_2_os_subj.Syscall.State.{Kernel, Outcome, arg, answer, finish, string_arg}
use nachos_project_2_os_subj.Syscall.Transfer.{put_chars}

-- The number of decimal digits of a positive `int`, which has ten at most; the loop runs while the
-- number is above 0.
unfoldable pub count_digits : (rounds temp : ℕ) → ℕ
count_digits zero temp = 0
count_digits (suc rounds) temp = if slt 0 temp then suc (count_digits rounds (temp / 10)) else 0

-- The loop that fills the buffer with the last `count` digits, from its end.
unfoldable pub fill_digits : (count number : ℕ) → List ℕ → List ℕ
fill_digits zero number buffer = buffer
fill_digits (suc count) number buffer =
    fill_digits count (number / 10) ((number % 10 + 48) ∷ buffer)

-- The characters that SC_PrintInt prints.
unfoldable pub print_int : ℕ → List ℕ
unfolding count_digits fill_digits
print_int number =
    if number == 0
    then 48 ∷ []
    else if slt number 0
    then (let positive = sub32 0 number in 45 ∷ fill_digits (count_digits 10 positive) positive [])
    else fill_digits (count_digits 10 number) number []

module _ {W : Type 0} (host : Host W) where
  unfoldable pub sc_add : Kernel W → Result (Outcome W)
  sc_add k = do op1 ← arg k 4; op2 ← arg k 5; answer k (u32 (op1 + op2))

  unfoldable pub sc_print_string : Kernel W → Result (Outcome W)
  sc_print_string k =
      string_arg k 4 255 >>= λ r. finish (record (r.0) { world = put_chars host r.1 r.0.world })

  -- The loop of SC_ReadString up to the end of the line, into a buffer of `left` bytes, its final 0
  -- included.
  unfoldable pub read_until : ℕ → W → Result (W × List ℕ)
  read_until zero w = err wild_access
  read_until (suc left) w =
      let r = host.get_char w in
      elim (r.1 == 10) [
        | true ↦ ok (r.0, [])
        | false ↦ read_until left r.0 >>= λ rest. ok (rest.0, r.1 ∷ rest.1)
      ]

  unfoldable pub sc_read_string : Kernel W → Result (Outcome W)
  sc_read_string k = do
    addr ← arg k 4
    limit ← arg k 5
    if slt limit 0
        then err no_memory
        else (read_until limit k.world >>= λ line.
            system_to_user k.machine addr (length line.1) line.1 >>= λ r.
            finish (record k { machine = r.1; world = line.0 }))

  unfoldable pub sc_print_int : Kernel W → Result (Outcome W)
  sc_print_int k =
      arg k 4 >>= λ number. finish (record k { world = put_chars host (print_int number) k.world })
