-- ===== src/Mips/Divide.antt =====
-- machine/mipssim.cc, DIV and DIVU of OneInstruction.
use nachos_project_2_os_subj.Base.{
  ℕ, ◌/◌, ◌%◌, ◌^◌, true, ◌&&◌, ◌==◌, slt, sub32, Result, err, bad_division, if◌then◌else◌,
  minus_one,
}
use nachos_project_2_os_subj.Machine.{Machine, hi_reg, lo_reg}
use nachos_project_2_os_subj.Mips.{Instruction, Stepped, set_reg, goes}
use nachos_project_2_os_subj.Mips.Mult.{magnitude}

-- / and % on `int` round to 0.
unfoldable pub signed_quotient : ℕ → ℕ → ℕ
signed_quotient a b =
    let q = magnitude true a / magnitude true b in
    if slt a 0 then (if slt b 0 then q else sub32 0 q) else (if slt b 0 then sub32 0 q else q)

unfoldable pub signed_remainder : ℕ → ℕ → ℕ
signed_remainder a b =
    let r = magnitude true a % magnitude true b in if slt a 0 then sub32 0 r else r

abbrev pub set_hi_lo : Machine → ℕ → ℕ → Machine
set_hi_lo m hi lo = set_reg (set_reg m lo_reg lo) hi_reg hi

unfoldable pub div_signed : Machine → Instruction → ℕ → Result Stepped
div_signed m i pc =
    let a = m.registers i.rs in
    let b = m.registers i.rt in
    if b == 0
    then goes (set_hi_lo m 0 0) pc
    else if a == 2 ^ 31 && b == minus_one
    then err bad_division
    else goes (set_hi_lo m (signed_remainder a b) (signed_quotient a b)) pc

unfoldable pub div_unsigned : Machine → Instruction → ℕ → Result Stepped
div_unsigned m i pc =
    let a = m.registers i.rs in
    let b = m.registers i.rt in
    if b == 0 then goes (set_hi_lo m 0 0) pc else goes (set_hi_lo m (a % b) (a / b)) pc
