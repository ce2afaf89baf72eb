-- ===== src/Mips/Execute.antt =====
-- machine/mipssim.cc, Machine::OneInstruction. Sums and shifts of an `int` wrap around, as on the
-- hosts of the Makefiles.
pub mod Overflow
use nachos_project_2_os_subj.Base.{
  ℕ, ◌+◌, ◌-◌, ◌*◌, ◌/◌, ◌%◌, ◌^◌, Bool, true, false, not, ◌&&◌, ◌==◌, ltb, leb, slt, sle, u32,
  sub32, Option, none, some, Result, ok, err, assert_failed, ◌>>=◌, if◌then◌else◌,
}
use nachos_project_2_os_subj.Machine.{
  Machine, ret_addr_reg, hi_reg, lo_reg, pc_reg, next_pc_reg, prev_pc_reg, bad_vaddr_reg, overflow,
  illegal_instr, delayed_load, update,
}
use nachos_project_2_os_subj.Machine.Memory.{read_mem}
use nachos_project_2_os_subj.Mips.{
  Opcode, Instruction, decode, Stepped, goes_on, returns, system_call, set_reg, goes, sets, raises,
}
use nachos_project_2_os_subj.Mips.Bits.{
  and32, or32, xor32, not32, signs_differ, shift_left, shift_right,
}
use nachos_project_2_os_subj.Mips.Mult.{mult_words}
use nachos_project_2_os_subj.Mips.Divide.{set_hi_lo, div_signed, div_unsigned}
use nachos_project_2_os_subj.Mips.Transfer.{
  load_byte, load_half, load_word, load_left, load_right, store_sized, store_left, store_right,
}

-- ADD, ADDI and SUB: of a result that is no `int` only the exception remains.
unfoldable pub add_registers : Machine → Instruction → ℕ → Result Stepped
add_registers m i pc =
    let a = m.registers i.rs in
    let b = m.registers i.rt in
    let sum = u32 (a + b) in
    if not (signs_differ a b) && signs_differ a sum then raises m overflow 0 else sets m pc i.rd sum

unfoldable pub add_immediate : Machine → Instruction → ℕ → Result Stepped
add_immediate m i pc =
    let a = m.registers i.rs in
    let sum = u32 (a + i.extra) in
    if not (signs_differ a i.extra) && signs_differ i.extra sum
    then raises m overflow 0
    else sets m pc i.rt sum

unfoldable pub sub_registers : Machine → Instruction → ℕ → Result Stepped
sub_registers m i pc =
    let a = m.registers i.rs in
    let b = m.registers i.rt in
    let diff = sub32 a b in
    if signs_differ a b && signs_differ a diff then raises m overflow 0 else sets m pc i.rd diff

abbrev pub return_address : Machine → ℕ
return_address m = u32 (m.registers next_pc_reg + 4)

-- The return address in register 31.
abbrev pub link : Machine → Machine
link m = set_reg m ret_addr_reg (return_address m)

unfoldable pub branch : Machine → Instruction → ℕ → Bool → Result Stepped
branch m i pc taken =
    goes m (if taken then u32 (m.registers next_pc_reg + u32 (i.extra * 4)) else pc)

abbrev pub jump_target : Instruction → ℕ → ℕ
jump_target i pc = or32 (pc / 2 ^ 28 * 2 ^ 28) (u32 (i.extra * 4))

abbrev pub bit : Bool → ℕ
bit b = if b then 1 else 0

unfoldable pub multiply : (signed : Bool) → Machine → Instruction → ℕ → Result Stepped
multiply signed m i pc =
    let product = mult_words (m.registers i.rs) (m.registers i.rt) signed in
    goes (set_hi_lo m product.0 product.1) pc

-- The switch, with the next program counter of an instruction that does not jump.
unfoldable pub execute : Opcode → Machine → Instruction → ℕ → Result Stepped
execute Opcode.addi m i pc = add_immediate m i pc
execute Opcode.add m i pc = add_registers m i pc
execute Opcode.addiu m i pc = sets m pc i.rt (u32 (m.registers i.rs + i.extra))
execute Opcode.addu m i pc = sets m pc i.rd (u32 (m.registers i.rs + m.registers i.rt))
execute Opcode.and m i pc = sets m pc i.rd (and32 (m.registers i.rs) (m.registers i.rt))
execute Opcode.andi m i pc = sets m pc i.rt (and32 (m.registers i.rs) (i.extra % 2 ^ 16))
execute Opcode.beq m i pc = branch m i pc (m.registers i.rs == m.registers i.rt)
execute Opcode.bgezal m i pc = branch (link m) i pc (not (slt ((link m).registers i.rs) 0))
execute Opcode.bgez m i pc = branch m i pc (not (slt (m.registers i.rs) 0))
execute Opcode.bgtz m i pc = branch m i pc (slt 0 (m.registers i.rs))
execute Opcode.blez m i pc = branch m i pc (sle (m.registers i.rs) 0)
execute Opcode.bltzal m i pc = branch (link m) i pc (slt ((link m).registers i.rs) 0)
execute Opcode.bltz m i pc = branch m i pc (slt (m.registers i.rs) 0)
execute Opcode.bne m i pc = branch m i pc (not (m.registers i.rs == m.registers i.rt))
execute Opcode.div m i pc = div_signed m i pc
execute Opcode.divu m i pc = div_unsigned m i pc
execute Opcode.jal m i pc = goes (link m) (jump_target i pc)
execute Opcode.j m i pc = goes m (jump_target i pc)
execute Opcode.jalr m i pc =
    let m₁ = set_reg m i.rd (return_address m) in goes m₁ (m₁.registers i.rs)
execute Opcode.jr m i pc = goes m (m.registers i.rs)
execute Opcode.lb m i pc = load_byte true m i pc
execute Opcode.lbu m i pc = load_byte false m i pc
execute Opcode.lh m i pc = load_half true m i pc
execute Opcode.lhu m i pc = load_half false m i pc
execute Opcode.lui m i pc = sets m pc i.rt (u32 (i.extra * 2 ^ 16))
execute Opcode.lw m i pc = load_word m i pc
execute Opcode.lwl m i pc = load_left m i pc
execute Opcode.lwr m i pc = load_right m i pc
execute Opcode.mfhi m i pc = sets m pc i.rd (m.registers hi_reg)
execute Opcode.mflo m i pc = sets m pc i.rd (m.registers lo_reg)
execute Opcode.mthi m i pc = sets m pc hi_reg (m.registers i.rs)
execute Opcode.mtlo m i pc = sets m pc lo_reg (m.registers i.rs)
execute Opcode.mult m i pc = multiply true m i pc
execute Opcode.multu m i pc = multiply false m i pc
execute Opcode.nor m i pc = sets m pc i.rd (not32 (or32 (m.registers i.rs) (m.registers i.rt)))
execute Opcode.or m i pc = sets m pc i.rd (or32 (m.registers i.rs) (m.registers i.rt))
execute Opcode.ori m i pc = sets m pc i.rt (or32 (m.registers i.rs) (i.extra % 2 ^ 16))
execute Opcode.sb m i pc = store_sized 1 m i pc
execute Opcode.sh m i pc = store_sized 2 m i pc
execute Opcode.sll m i pc = sets m pc i.rd (shift_left (m.registers i.rt) i.extra)
execute Opcode.sllv m i pc =
    sets m pc i.rd (shift_left (m.registers i.rt) (m.registers i.rs % 2 ^ 5))
execute Opcode.slt m i pc = sets m pc i.rd (bit (slt (m.registers i.rs) (m.registers i.rt)))
execute Opcode.slti m i pc = sets m pc i.rt (bit (slt (m.registers i.rs) i.extra))
execute Opcode.sltiu m i pc = sets m pc i.rt (bit (ltb (m.registers i.rs) i.extra))
execute Opcode.sltu m i pc = sets m pc i.rd (bit (ltb (m.registers i.rs) (m.registers i.rt)))
execute Opcode.sra m i pc = sets m pc i.rd (shift_right (m.registers i.rt) i.extra)
execute Opcode.srav m i pc =
    sets m pc i.rd (shift_right (m.registers i.rt) (m.registers i.rs % 2 ^ 5))
execute Opcode.srl m i pc = sets m pc i.rd (shift_right (m.registers i.rt) i.extra)
execute Opcode.srlv m i pc =
    sets m pc i.rd (shift_right (m.registers i.rt) (m.registers i.rs % 2 ^ 5))
execute Opcode.sub m i pc = sub_registers m i pc
execute Opcode.subu m i pc = sets m pc i.rd (sub32 (m.registers i.rs) (m.registers i.rt))
execute Opcode.sw m i pc = store_sized 4 m i pc
execute Opcode.swl m i pc = store_left m i pc
execute Opcode.swr m i pc = store_right m i pc
execute Opcode.syscall m i pc = ok (system_call (delayed_load (set_reg m bad_vaddr_reg 0) 0 0))
execute Opcode.xor m i pc = sets m pc i.rd (xor32 (m.registers i.rs) (m.registers i.rt))
execute Opcode.xori m i pc = sets m pc i.rt (xor32 (m.registers i.rs) (i.extra % 2 ^ 16))
execute Opcode.res m i pc = raises m illegal_instr 0
execute Opcode.unimp m i pc = raises m illegal_instr 0
execute _ m i pc = err assert_failed

-- An instruction that has run, or one that has trapped, after which the kernel runs.
pub data Cycle : Type 0 where
  ran : Machine → Cycle
  called : Machine → Cycle

-- The delayed load, and the program counters.
unfoldable pub complete : Machine → (pc_after load_reg load_value : ℕ) → Machine
complete m pc_after load_reg load_value =
    let m₁ = delayed_load m load_reg load_value in
    let m₂ = set_reg m₁ prev_pc_reg (m₁.registers pc_reg) in
    let m₃ = set_reg m₂ pc_reg (m₂.registers next_pc_reg) in set_reg m₃ next_pc_reg pc_after

unfoldable pub completed : Stepped → Cycle
completed (goes_on m pc_after load_reg load_value) = ran (complete m pc_after load_reg load_value)
completed (returns m) = ran m
completed (system_call m) = called m

unfoldable pub one_instruction : Machine → Result Cycle
one_instruction m = do
  (raw, m₁) ← read_mem m (m.registers pc_reg) 4
  elim raw [
    | none ↦ ok (ran m₁)
    | some value ↦
        decode value >>= λ i. execute i.op_code m₁ i (return_address m₁) >>= λ s. ok (completed s)
  ]
