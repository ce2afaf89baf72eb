-- ===== src/AddrSpace/Entry.antt =====
-- The registers that a program starts with.
use nachos_project_2_os_subj.Base.{
  ℕ, zero, suc, ◌+◌, ◌*◌, ◌≤◌, ◌<◌, ◌≡◌, ◌∙◌, refl, ap, arith, ◌&&◌, ok, ◌>>=◌, leb, ltb, ◌==◌,
  if◌then◌else◌, sub32,
}
use nachos_project_2_os_subj.Machine.{
  Machine, num_total_regs, page_size, stack_reg, pc_reg, next_pc_reg, update, write_register,
}
use nachos_project_2_os_subj.AddrSpace.{AddrSpace, zero_registers, start_registers, init_registers}

write_register_lem :
    (m : Machine) (i x : ℕ)
    → i < num_total_regs
    → write_register m i x ≡ ok (record m { registers = update m.registers i x })
unfolding write_register
write_register_lem m i x l = ground arith

zero_registers_lem :
    (left i : ℕ) (m : Machine)
    → i + left ≤ num_total_regs
    → (f : ℕ → ℕ) × (zero_registers left i m ≡ ok (record m { registers = f }))
      × ((r : ℕ) → f r ≡ (if leb i r && ltb r (i + left) then 0 else m.registers r))
unfolding zero_registers
zero_registers_lem zero i m h = (m.registers, refl, λ r. ground arith)
zero_registers_lem (suc left) i m h =
    let m₁ = record m { registers = update m.registers i 0 } in
    let (f, e, rest) = zero_registers_lem left (i + 1) m₁ (omega arith) in
    (f, rw (write_register_lem m i 0 (omega arith)) e, λ r. rest r ∙ ground arith)

start_registers_lem :
    (s : AddrSpace) (m : Machine)
    → start_registers s m
      ≡ ok (record m {
        registers =
            update
              (update (update m.registers pc_reg 0) next_pc_reg 4)
              stack_reg
              (sub32 (s.num_pages * page_size) 16);
      })
unfolding start_registers
start_registers_lem s m =
    let f₁ = update m.registers pc_reg 0 in
    let f₂ = update f₁ next_pc_reg 4 in
    rw
      (
        write_register_lem m pc_reg 0 (omega arith),
        write_register_lem (record m { registers = f₁ }) next_pc_reg 4 (omega arith),
      )
      (write_register_lem (record m { registers = f₂ }) stack_reg
        (sub32 (s.num_pages * page_size) 16) (omega arith))

-- InitRegisters succeeds and sets every register to 0, but for the next program counter, which is
-- 4, and the stack pointer, which is 16 below the end of the address space; the rest of the machine
-- stays as it was.
pub init_registers_lem :
    (s : AddrSpace) (m : Machine)
    → (f : ℕ → ℕ) × (init_registers s m ≡ ok (record m { registers = f }))
      × ((r : ℕ)
          → r < num_total_regs
          → f r ≡ (
              if r == stack_reg
              then sub32 (s.num_pages * page_size) 16
              else if r == next_pc_reg
              then 4
              else 0))
unfolding init_registers start_registers
init_registers_lem s m =
    let (f, e, zeros) = zero_registers_lem num_total_regs 0 m (omega arith) in
    let f₁ = update f pc_reg 0 in
    let f₂ = update f₁ next_pc_reg 4 in
    let f₃ = update f₂ stack_reg (sub32 (s.num_pages * page_size) 16) in
    (
      f₃,
      ap (λ cleared. cleared >>= start_registers s) e
          ∙ start_registers_lem s (record m { registers = f }),
      λ r l. ground (arith, zeros r),
    )
