-- ===== src/Mips/Cycle.antt =====
-- What one instruction leaves of the bounds of registers and memory.
use nachos_project_2_os_subj.Base.{
  ℕ, ◌^◌, ◌<◌, ◌≡◌, refl, arith, Bool, true, false, inl, inr, ok, assert_failed,
}
use native.Mathlib.Nat.{div-le_self}
use nachos_project_2_os_subj.Machine.{
  Machine, overflow, illegal_instr, hi_reg, lo_reg, ret_addr_reg, pc_reg, next_pc_reg, prev_pc_reg,
  bad_vaddr_reg, delayed_load,
}
use nachos_project_2_os_subj.UserMemory.Post.{Post, comes, fails, Post-bind, Post-if, Post-at}
use nachos_project_2_os_subj.Mips.{
  Opcode, Instruction, Stepped, goes_on, returns, system_call, set_reg,
}
use nachos_project_2_os_subj.Mips.Bits.{and32, or32, xor32, not32, shift_right, bitwise_bound}
use nachos_project_2_os_subj.Mips.Mult.{mult_words-IsPair}
use nachos_project_2_os_subj.Mips.Bounds.{Words, read_mem-Words, set_reg-Words, delayed_load-Words}
use nachos_project_2_os_subj.Mips.Cases.{
  Fields, decode-Fields, Sound, Fits, raises-Fits, goes-Fits, sets-Fits, load_byte-Fits,
  load_half-Fits, load_word-Fits, load_left-Fits, load_right-Fits, store_sized-Fits,
  store_left-Fits, store_right-Fits, set_hi_lo-Fits, div_signed-Fits, div_unsigned-Fits,
}
use nachos_project_2_os_subj.Mips.Execute.{
  add_registers, add_immediate, sub_registers, return_address, link, branch, bit, multiply, execute,
  Cycle, ran, called, complete, completed, one_instruction,
}

and32_bound : (a b : ℕ) → and32 a b < 2 ^ 32
unfolding and32
and32_bound a b = bitwise_bound _ 32 a b

or32_bound : (a b : ℕ) → or32 a b < 2 ^ 32
unfolding or32
or32_bound a b = bitwise_bound _ 32 a b

xor32_bound : (a b : ℕ) → xor32 a b < 2 ^ 32
unfolding xor32
xor32_bound a b = bitwise_bound _ 32 a b

not32_bound : (a : ℕ) → not32 a < 2 ^ 32
unfolding not32
not32_bound a = omega arith

bit_bound : (b : Bool) → bit b < 2 ^ 32
bit_bound true = omega arith
bit_bound false = omega arith

shift_right_bound : (a n : ℕ) → a < 2 ^ 32 → shift_right a n < 2 ^ 32
unfolding shift_right
shift_right_bound a n h = let k = div-le_self a (2 ^ n) in ground arith

link-Words : (m : Machine) → Words m → Words (link m)
link-Words m w = set_reg-Words m ret_addr_reg _ w (omega arith) (omega arith)

branch-Fits :
    (m : Machine) (i : Instruction) (pc : ℕ) (b : Bool)
    → Words m
    → pc < 2 ^ 32
    → Post Fits (branch m i pc b)
unfolding branch
branch-Fits m i pc b w h = goes-Fits m _ w (ground arith)

module _ (m : Machine) (i : Instruction) (pc : ℕ) (w : Words m) (f : Fields i)
    (h : pc < 2 ^ 32) where
  add_registers-Fits : Post Fits (add_registers m i pc)
  unfolding add_registers
  add_registers-Fits =
      Post-if _ _ _ (raises-Fits m overflow 0 λ e. cc)
        (sets-Fits m pc i.rd _ w h (omega (arith, f.rd)) (omega arith))

  add_immediate-Fits : Post Fits (add_immediate m i pc)
  unfolding add_immediate
  add_immediate-Fits =
      Post-if _ _ _ (raises-Fits m overflow 0 λ e. cc)
        (sets-Fits m pc i.rt _ w h (omega (arith, f.rt)) (omega arith))

  sub_registers-Fits : Post Fits (sub_registers m i pc)
  unfolding sub_registers
  sub_registers-Fits =
      Post-if _ _ _ (raises-Fits m overflow 0 λ e. cc)
        (sets-Fits m pc i.rd _ w h (omega (arith, f.rd)) (omega arith))

  multiply-Fits : (signed : Bool) → Post Fits (multiply signed m i pc)
  unfolding multiply
  multiply-Fits signed =
      let b = mult_words-IsPair (m.registers i.rs) (m.registers i.rt) signed in
      set_hi_lo-Fits m i pc w f h _ _ b.hi b.lo

  jalr-Fits : Post Fits (execute Opcode.jalr m i pc)
  unfolding execute
  jalr-Fits =
      let w₁ = set_reg-Words m i.rd (return_address m) w (omega (arith, f.rd)) (omega arith) in
      goes-Fits _ _ w₁ (w₁.registers i.rs)

syscall-Fits :
    (m : Machine)
    → Words m
    → Post Fits (ok (system_call (delayed_load (set_reg m bad_vaddr_reg 0) 0 0)))
unfolding Fits delayed_load
syscall-Fits m w =
    let w₁ = set_reg-Words m bad_vaddr_reg 0 w (omega arith) (omega arith) in
    comes _
      (record { words = delayed_load-Words _ 0 0 w₁ (omega arith) (omega arith); zero = refl })

execute-Fits :
    (code : Opcode) (m : Machine) (i : Instruction) (pc : ℕ)
    → Words m
    → Fields i
    → pc < 2 ^ 32
    → Post Fits (execute code m i pc)
unfolding execute
execute-Fits Opcode.addi m i pc w f h = add_immediate-Fits m i pc w f h
execute-Fits Opcode.add m i pc w f h = add_registers-Fits m i pc w f h
execute-Fits Opcode.addiu m i pc w f h =
    sets-Fits m pc i.rt _ w h (omega (arith, f.rt)) (omega arith)
execute-Fits Opcode.addu m i pc w f h =
    sets-Fits m pc i.rd _ w h (omega (arith, f.rd)) (omega arith)
execute-Fits Opcode.and m i pc w f h =
    sets-Fits m pc i.rd _ w h (omega (arith, f.rd)) (and32_bound _ _)
execute-Fits Opcode.andi m i pc w f h =
    sets-Fits m pc i.rt _ w h (omega (arith, f.rt)) (and32_bound _ _)
execute-Fits Opcode.beq m i pc w f h = branch-Fits m i pc _ w h
execute-Fits Opcode.bgezal m i pc w f h = branch-Fits (link m) i pc _ (link-Words m w) h
execute-Fits Opcode.bgez m i pc w f h = branch-Fits m i pc _ w h
execute-Fits Opcode.bgtz m i pc w f h = branch-Fits m i pc _ w h
execute-Fits Opcode.blez m i pc w f h = branch-Fits m i pc _ w h
execute-Fits Opcode.bltzal m i pc w f h = branch-Fits (link m) i pc _ (link-Words m w) h
execute-Fits Opcode.bltz m i pc w f h = branch-Fits m i pc _ w h
execute-Fits Opcode.bne m i pc w f h = branch-Fits m i pc _ w h
execute-Fits Opcode.div m i pc w f h = div_signed-Fits m i pc w f h
execute-Fits Opcode.divu m i pc w f h = div_unsigned-Fits m i pc w f h
execute-Fits Opcode.jal m i pc w f h = goes-Fits _ _ (link-Words m w) (or32_bound _ _)
execute-Fits Opcode.j m i pc w f h = goes-Fits _ _ w (or32_bound _ _)
execute-Fits Opcode.jalr m i pc w f h = jalr-Fits m i pc w f h
execute-Fits Opcode.jr m i pc w f h = goes-Fits m _ w (w.registers i.rs)
execute-Fits Opcode.lb m i pc w f h = load_byte-Fits m i pc w f h true
execute-Fits Opcode.lbu m i pc w f h = load_byte-Fits m i pc w f h false
execute-Fits Opcode.lh m i pc w f h = load_half-Fits m i pc w f h true
execute-Fits Opcode.lhu m i pc w f h = load_half-Fits m i pc w f h false
execute-Fits Opcode.lui m i pc w f h = sets-Fits m pc i.rt _ w h (omega (arith, f.rt)) (omega arith)
execute-Fits Opcode.lw m i pc w f h = load_word-Fits m i pc w f h
execute-Fits Opcode.lwl m i pc w f h = load_left-Fits m i pc w f h
execute-Fits Opcode.lwr m i pc w f h = load_right-Fits m i pc w f h
execute-Fits Opcode.mfhi m i pc w f h =
    sets-Fits m pc i.rd _ w h (omega (arith, f.rd)) (w.registers hi_reg)
execute-Fits Opcode.mflo m i pc w f h =
    sets-Fits m pc i.rd _ w h (omega (arith, f.rd)) (w.registers lo_reg)
execute-Fits Opcode.mthi m i pc w f h = sets-Fits m pc hi_reg _ w h (omega arith) (w.registers i.rs)
execute-Fits Opcode.mtlo m i pc w f h = sets-Fits m pc lo_reg _ w h (omega arith) (w.registers i.rs)
execute-Fits Opcode.mult m i pc w f h = multiply-Fits m i pc w f h true
execute-Fits Opcode.multu m i pc w f h = multiply-Fits m i pc w f h false
execute-Fits Opcode.nor m i pc w f h =
    sets-Fits m pc i.rd _ w h (omega (arith, f.rd)) (not32_bound _)
execute-Fits Opcode.or m i pc w f h =
    sets-Fits m pc i.rd _ w h (omega (arith, f.rd)) (or32_bound _ _)
execute-Fits Opcode.ori m i pc w f h =
    sets-Fits m pc i.rt _ w h (omega (arith, f.rt)) (or32_bound _ _)
execute-Fits Opcode.sb m i pc w f h = store_sized-Fits m i pc w f h 1 (inl refl)
execute-Fits Opcode.sh m i pc w f h = store_sized-Fits m i pc w f h 2 (inr (inl refl))
execute-Fits Opcode.sll m i pc w f h = sets-Fits m pc i.rd _ w h (omega (arith, f.rd)) (omega arith)
execute-Fits Opcode.sllv m i pc w f h =
    sets-Fits m pc i.rd _ w h (omega (arith, f.rd)) (omega arith)
execute-Fits Opcode.slt m i pc w f h = sets-Fits m pc i.rd _ w h (omega (arith, f.rd)) (bit_bound _)
execute-Fits Opcode.slti m i pc w f h =
    sets-Fits m pc i.rt _ w h (omega (arith, f.rt)) (bit_bound _)
execute-Fits Opcode.sltiu m i pc w f h =
    sets-Fits m pc i.rt _ w h (omega (arith, f.rt)) (bit_bound _)
execute-Fits Opcode.sltu m i pc w f h =
    sets-Fits m pc i.rd _ w h (omega (arith, f.rd)) (bit_bound _)
execute-Fits Opcode.sra m i pc w f h =
    sets-Fits m pc i.rd _ w h (omega (arith, f.rd)) (shift_right_bound _ _ (w.registers i.rt))
execute-Fits Opcode.srav m i pc w f h =
    sets-Fits m pc i.rd _ w h (omega (arith, f.rd)) (shift_right_bound _ _ (w.registers i.rt))
execute-Fits Opcode.srl m i pc w f h =
    sets-Fits m pc i.rd _ w h (omega (arith, f.rd)) (shift_right_bound _ _ (w.registers i.rt))
execute-Fits Opcode.srlv m i pc w f h =
    sets-Fits m pc i.rd _ w h (omega (arith, f.rd)) (shift_right_bound _ _ (w.registers i.rt))
execute-Fits Opcode.sub m i pc w f h = sub_registers-Fits m i pc w f h
execute-Fits Opcode.subu m i pc w f h =
    sets-Fits m pc i.rd _ w h (omega (arith, f.rd)) (omega arith)
execute-Fits Opcode.sw m i pc w f h = store_sized-Fits m i pc w f h 4 (inr (inr refl))
execute-Fits Opcode.swl m i pc w f h = store_left-Fits m i pc w f h
execute-Fits Opcode.swr m i pc w f h = store_right-Fits m i pc w f h
execute-Fits Opcode.syscall m i pc w f h = syscall-Fits m w
execute-Fits Opcode.xor m i pc w f h =
    sets-Fits m pc i.rd _ w h (omega (arith, f.rd)) (xor32_bound _ _)
execute-Fits Opcode.xori m i pc w f h =
    sets-Fits m pc i.rt _ w h (omega (arith, f.rt)) (xor32_bound _ _)
execute-Fits Opcode.res m i pc w f h = raises-Fits m illegal_instr 0 λ e. cc
execute-Fits Opcode.unimp m i pc w f h = raises-Fits m illegal_instr 0 λ e. cc
execute-Fits Opcode.rfe m i pc w f h = fails assert_failed
execute-Fits Opcode.special m i pc w f h = fails assert_failed
execute-Fits Opcode.bcond m i pc w f h = fails assert_failed

complete-Sound :
    (m : Machine) (pc reg value : ℕ)
    → Words m
    → pc < 2 ^ 32
    → reg < 32
    → value < 2 ^ 32
    → Sound (complete m pc reg value)
unfolding complete delayed_load
complete-Sound m pc reg value w h k l =
    let w₁ = delayed_load-Words m reg value w k l in
    let w₂ = set_reg-Words _ prev_pc_reg _ w₁ (omega arith) (w₁.registers pc_reg) in
    let w₃ = set_reg-Words _ pc_reg _ w₂ (omega arith) (w₂.registers next_pc_reg) in
    record { words = set_reg-Words _ next_pc_reg pc w₃ (omega arith) h; zero = refl }

-- The machine after one instruction.
pub after : Cycle → Machine
after (ran m) = m
after (called m) = m

completed-Sound : (s : Stepped) → Fits s → Sound (after (completed s))
unfolding Fits completed after
completed-Sound (goes_on m pc reg value) (w, h, k, l) = complete-Sound m pc reg value w h k l
completed-Sound (returns m) s = s
completed-Sound (system_call m) s = s

one_instruction-Post : (m : Machine) → Words m → Post (λ c. Sound (after c)) (one_instruction m)
unfolding one_instruction
one_instruction-Post m w = Post-bind (read_mem-Words m _ 4 w (inr (inr refl))) λ r (v, e, h, w₁).
    rw e (
      Post-bind (decode-Fields v) λ i f.
        Post-bind (execute-Fits i.op_code r.1 i _ w₁ f (omega arith))
          λ s t. comes _ (completed-Sound s t))

-- OneInstruction on a machine that runs through a page table, whose registers hold 32-bit words,
-- whose memory holds bytes and whose delayed load goes to one of the 32 registers, keeps all of
-- that where it comes back, and leaves 0 in register 0.
pub one_instruction-Sound :
    (m : Machine) (c : Cycle) → Words m → one_instruction m ≡ ok c → Sound (after c)
one_instruction-Sound m c w h = Post-at _ _ (one_instruction-Post m w) h
