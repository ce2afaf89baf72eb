-- ===== src/Mips.antt =====
-- machine/mipssim.h and Instruction::Decode of machine/mipssim.cc: the MIPS instructions, and what
-- a word of the program says.
pub mod Bits
pub mod Mult
pub mod Divide
pub mod Bounds
pub mod Cases
pub mod Transfer
pub mod Execute
pub mod Cycle
use nachos_project_2_os_subj.Base.{
  ℕ, ◌+◌, ◌-◌, ◌*◌, ◌/◌, ◌%◌, ◌^◌, Bool, true, false, List, [], ◌∷◌, Option, none, some, Result, ok,
  err, wild_access, ◌>>=◌, deref, get_elem?, ltb, leb, ◌==◌, if◌then◌else◌,
}
use nachos_project_2_os_subj.Machine.{
  Machine, ExceptionType, update, raise_exception, load_reg, load_value_reg,
}

-- The codes of the header, without their OP_; `unimp` is a legal instruction that the simulator
-- does not know, `res` a code that the architecture reserves. `special` and `bcond` stand in the
-- table only.
pub data Opcode : Type 0 where
  add addi addiu addu and andi beq bgez bgezal bgtz blez bltz bltzal bne div divu : Opcode
  j jal jalr jr lb lbu lh lhu lui lw lwl lwr mfhi mflo mthi mtlo : Opcode
  mult multu nor or ori rfe sb sh sll sllv slt slti sltiu sltu : Opcode
  sra srav srl srlv sub subu sw swl swr xor xori syscall unimp res : Opcode
  special bcond : Opcode

pub data Format : Type 0 where
  i_format j_format r_format : Format

-- opTable, by the bits from 26 on.
abbrev pub op_table : List (Opcode × Format)
op_table =
    (special, r_format)
    ∷ (bcond, i_format)
    ∷ (j, j_format)
    ∷ (jal, j_format)
    ∷ (beq, i_format)
    ∷ (bne, i_format)
    ∷ (blez, i_format)
    ∷ (bgtz, i_format)
    ∷ (addi, i_format)
    ∷ (addiu, i_format)
    ∷ (slti, i_format)
    ∷ (sltiu, i_format)
    ∷ (andi, i_format)
    ∷ (ori, i_format)
    ∷ (xori, i_format)
    ∷ (lui, i_format)
    ∷ (unimp, i_format)
    ∷ (unimp, i_format)
    ∷ (unimp, i_format)
    ∷ (unimp, i_format)
    ∷ (res, i_format)
    ∷ (res, i_format)
    ∷ (res, i_format)
    ∷ (res, i_format)
    ∷ (res, i_format)
    ∷ (res, i_format)
    ∷ (res, i_format)
    ∷ (res, i_format)
    ∷ (res, i_format)
    ∷ (res, i_format)
    ∷ (res, i_format)
    ∷ (res, i_format)
    ∷ (lb, i_format)
    ∷ (lh, i_format)
    ∷ (lwl, i_format)
    ∷ (lw, i_format)
    ∷ (lbu, i_format)
    ∷ (lhu, i_format)
    ∷ (lwr, i_format)
    ∷ (res, i_format)
    ∷ (sb, i_format)
    ∷ (sh, i_format)
    ∷ (swl, i_format)
    ∷ (sw, i_format)
    ∷ (res, i_format)
    ∷ (res, i_format)
    ∷ (swr, i_format)
    ∷ (res, i_format)
    ∷ (unimp, i_format)
    ∷ (unimp, i_format)
    ∷ (unimp, i_format)
    ∷ (unimp, i_format)
    ∷ (res, i_format)
    ∷ (res, i_format)
    ∷ (res, i_format)
    ∷ (res, i_format)
    ∷ (unimp, i_format)
    ∷ (unimp, i_format)
    ∷ (unimp, i_format)
    ∷ (unimp, i_format)
    ∷ (res, i_format)
    ∷ (res, i_format)
    ∷ (res, i_format)
    ∷ (res, i_format)
    ∷ []

-- specialTable, by the lowest six bits.
abbrev pub special_table : List Opcode
special_table =
    sll ∷ res ∷ srl ∷ sra ∷ sllv ∷ res ∷ srlv ∷ srav ∷ jr ∷ jalr ∷ res ∷ res ∷ syscall ∷ unimp ∷ res
    ∷ res ∷ mfhi ∷ mthi ∷ mflo ∷ mtlo ∷ res ∷ res ∷ res ∷ res ∷ mult ∷ multu ∷ div ∷ divu ∷ res
    ∷ res ∷ res ∷ res ∷ add ∷ addu ∷ sub ∷ subu ∷ and ∷ or ∷ xor ∷ nor ∷ res ∷ res ∷ slt ∷ sltu
    ∷ res ∷ res ∷ res ∷ res ∷ res ∷ res ∷ res ∷ res ∷ res ∷ res ∷ res ∷ res ∷ res ∷ res ∷ res ∷ res
    ∷ res ∷ res ∷ res ∷ res ∷ []

pub record Instruction : Type 0 where
  pub value : ℕ
  pub op_code : Opcode
  pub rs : ℕ
  pub rt : ℕ
  pub rd : ℕ
  pub extra : ℕ

-- The sign of 16 bits, spread over 32.
abbrev pub extended : ℕ → ℕ
extended half = if leb (2 ^ 15) half then half + 2 ^ 32 - 2 ^ 16 else half

unfoldable pub extra_of : Format → ℕ → ℕ
extra_of i_format value = extended (value % 2 ^ 16)
extra_of r_format value = value / 2 ^ 6 % 2 ^ 5
extra_of j_format value = value % 2 ^ 26

unfoldable pub branch_code : ℕ → Opcode
branch_code i =
    if i == 0
    then bltz
    else if i == 2 ^ 16
    then bgez
    else if i == 2 ^ 20
    then bltzal
    else if i == 2 ^ 20 + 2 ^ 16
    then bgezal
    else unimp

unfoldable pub code_of : Opcode → ℕ → Result Opcode
code_of special value = deref (get_elem? special_table (value % 2 ^ 6))
code_of bcond value = ok (branch_code (value / 2 ^ 16 % 2 ^ 5 * 2 ^ 16))
code_of code value = ok code

-- Instruction::Decode
unfoldable pub decode : ℕ → Result Instruction
decode value = do
  entry ← deref (get_elem? op_table (value / 2 ^ 26 % 2 ^ 6))
  code ← code_of entry.0 value
  ok (record {
    value = value;
    op_code = code;
    rs = value / 2 ^ 21 % 2 ^ 5;
    rt = value / 2 ^ 16 % 2 ^ 5;
    rd = value / 2 ^ 11 % 2 ^ 5;
    extra = extra_of entry.1 value;
  })

-- What the switch of OneInstruction comes to: the rest of the routine, with the next program
-- counter and a delayed load, or a return after an exception, or a system call.
pub data Stepped : Type 0 where
  goes_on : Machine → (pc_after load_reg load_value : ℕ) → Stepped
  returns : Machine → Stepped
  system_call : Machine → Stepped

abbrev pub set_reg : Machine → ℕ → ℕ → Machine
set_reg m i v = record m { registers = update m.registers i v }

abbrev pub goes : Machine → ℕ → Result Stepped
goes m pc_after = ok (goes_on m pc_after 0 0)

-- An instruction that only writes a register.
abbrev pub sets : Machine → ℕ → ℕ → ℕ → Result Stepped
sets m pc_after i v = goes (set_reg m i v) pc_after

abbrev pub raises : Machine → ExceptionType → ℕ → Result Stepped
raises m which addr = raise_exception m which addr >>= λ m'. ok (returns m')
