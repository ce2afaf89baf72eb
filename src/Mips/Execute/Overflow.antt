-- ===== src/Mips/Execute/Overflow.antt =====
-- When ADD, ADDI and SUB trap.
use nachos_project_2_os_subj.Base.{
  ℕ, ◌+◌, ◌*◌, ◌%◌, ◌^◌, ◌<◌, ◌≡◌, refl, arith, Bool, true, false, not, ◌&&◌, leb, ltb, u32, sub32,
  err, trapped, if◌then◌else◌,
}
use nachos_project_2_os_subj.Machine.{Machine, overflow, exception_number}
use nachos_project_2_os_subj.Machine.RoundTrip.{raise-halts}
use nachos_project_2_os_subj.Mips.{Instruction, sets}
use nachos_project_2_os_subj.Mips.Bits.{signs_differ}
use nachos_project_2_os_subj.Mips.Bits.Signs.{signs_differ_lem}
use nachos_project_2_os_subj.Mips.Execute.{add_registers, sub_registers}

-- The value of an `int`, moved up by 2 ^ 31.
abbrev pub offset : ℕ → ℕ
offset a = (a + 2 ^ 31) % 2 ^ 32

-- The sum of two values is an `int`, and their difference.
abbrev pub sum_fits : ℕ → ℕ → Bool
sum_fits a b = leb (2 ^ 31) (offset a + offset b) && ltb (offset a + offset b) (3 * 2 ^ 31)

abbrev pub difference_fits : ℕ → ℕ → Bool
difference_fits a b = leb (offset b) (offset a + 2 ^ 31) && ltb (offset a) (offset b + 2 ^ 31)

if_not {ℓ} : {A : Type ℓ} (b : Bool) (x y : A) → (if not b then x else y) ≡ (if b then y else x)
if_not true x y = refl
if_not false x y = refl

sum_test :
    (a b : ℕ)
    → a < 2 ^ 32
    → b < 2 ^ 32
    → (not (signs_differ a b) && signs_differ a (u32 (a + b))) ≡ not (sum_fits a b)
sum_test a b h k =
    rw (signs_differ_lem a b h k, signs_differ_lem a (u32 (a + b)) h (omega arith)) (ground arith)

difference_test :
    (a b : ℕ)
    → a < 2 ^ 32
    → b < 2 ^ 32
    → (signs_differ a b && signs_differ a (sub32 a b)) ≡ not (difference_fits a b)
difference_test a b h k =
    rw (signs_differ_lem a b h k, signs_differ_lem a (sub32 a b) h (omega arith)) (ground arith)

module _ (m : Machine) (i : Instruction) (pc : ℕ) where
  add_registers_lem :
      m.registers i.rs < 2 ^ 32
      → m.registers i.rt < 2 ^ 32
      → add_registers m i pc ≡ (
          if sum_fits (m.registers i.rs) (m.registers i.rt)
          then sets m pc i.rd (u32 (m.registers i.rs + m.registers i.rt))
          else err (trapped (exception_number overflow)))
  unfolding add_registers
  add_registers_lem h k =
      rw (sum_test (m.registers i.rs) (m.registers i.rt) h k, raise-halts m overflow 0 λ e. cc)
        (if_not (sum_fits (m.registers i.rs) (m.registers i.rt)) _ _)

  sub_registers_lem :
      m.registers i.rs < 2 ^ 32
      → m.registers i.rt < 2 ^ 32
      → sub_registers m i pc ≡ (
          if difference_fits (m.registers i.rs) (m.registers i.rt)
          then sets m pc i.rd (sub32 (m.registers i.rs) (m.registers i.rt))
          else err (trapped (exception_number overflow)))
  unfolding sub_registers
  sub_registers_lem h k =
      rw
        (
          difference_test (m.registers i.rs) (m.registers i.rt) h k,
          raise-halts m overflow 0 λ e. cc,
        )
        (if_not (difference_fits (m.registers i.rs) (m.registers i.rt)) _ _)

  -- ADD and SUB of two registers that hold 32-bit words: where the signed sum or difference is an
  -- int, the target register gets it; otherwise the machine halts with the overflow exception.
  pub add-sub_traps :
      m.registers i.rs < 2 ^ 32
      → m.registers i.rt < 2 ^ 32
      → (add_registers m i pc ≡ (
          if sum_fits (m.registers i.rs) (m.registers i.rt)
          then sets m pc i.rd (u32 (m.registers i.rs + m.registers i.rt))
          else err (trapped (exception_number overflow))))
        × (sub_registers m i pc ≡ (
            if difference_fits (m.registers i.rs) (m.registers i.rt)
            then sets m pc i.rd (sub32 (m.registers i.rs) (m.registers i.rt))
            else err (trapped (exception_number overflow))))
  add-sub_traps h k = (add_registers_lem h k, sub_registers_lem h k)
