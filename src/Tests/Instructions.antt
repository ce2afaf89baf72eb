-- ===== src/Tests/Instructions.antt =====
-- A machine on which ADDIU 2, 0, 5 lies at address 0, and instructions on numbers.
use nachos_project_2_os_subj.Base.{
  ◌+◌, ◌-◌, ◌*◌, ◌%◌, ◌^◌, ◌≡◌, refl, arith, true, false, [], ◌∷◌, none, some, ok, err, trapped,
  slt, ◌&&◌, ◌==◌, if◌then◌else◌, sub32, u32,
}
use nachos_project_2_os_subj.Machine.{Machine, TranslationEntry}
use nachos_project_2_os_subj.Machine.Translate.{touch, touched, translate, find_entry}
use nachos_project_2_os_subj.Machine.Memory.{read_mem, load}
use nachos_project_2_os_subj.UserMemory.Kept.{IsUser}
use nachos_project_2_os_subj.Mips.{Opcode, Instruction, decode, code_of, extra_of, set_reg, sets}
use nachos_project_2_os_subj.Mips.Bounds.{Words}
use nachos_project_2_os_subj.Mips.Cases.{Sound}
use nachos_project_2_os_subj.Mips.Mult.{mult_words}
use nachos_project_2_os_subj.Mips.Mult.Product.{double_word, mult_words_lem}
use nachos_project_2_os_subj.Mips.Execute.{
  Cycle, ran, complete, completed, execute, one_instruction, add_registers, sub_registers,
}
use nachos_project_2_os_subj.Mips.Execute.Overflow.{sum_fits, difference_fits, add-sub_traps}
use nachos_project_2_os_subj.Mips.Cycle.{after, one_instruction-Sound}

abbrev page : TranslationEntry
page = record {
  virtual_page = 0;
  physical_page = 0;
  valid = true;
  read_only = false;
  used = false;
  dirty = false;
}

abbrev program : Machine
program = record {
  registers = λ _. 0;
  main_memory = λ a. if a == 0 then 5 else if a == 2 then 2 else if a == 3 then 36 else 0;
  tlb = none;
  page_table = some (page ∷ []);
  page_table_size = 1;
}

program-Words : Words program
unfolding IsUser
program-Words = record {
  user = (page ∷ [], record { no_tlb = refl; paged = refl; sized = refl });
  registers = λ r. omega arith;
  memory = λ a. ground arith;
  load = omega arith;
}

abbrev cycle : Cycle
cycle = ran (complete (set_reg (touch program 0 (touched page false)) 2 5) 4 0 0)

program_runs : one_instruction program ≡ ok cycle
unfolding one_instruction read_mem translate find_entry load decode code_of extra_of execute
    completed complete touch
program_runs = refl

one_instruction-Sound_example : Sound (after cycle)
one_instruction-Sound_example = one_instruction-Sound program cycle program-Words program_runs

mult_words_lem_example :
    (double_word (mult_words (2 ^ 32 - 3) 5 true)
        + (if true && slt (2 ^ 32 - 3) 0 then 2 ^ 32 * 5 else 0)
        + (if true && slt 5 0 then 2 ^ 32 * (2 ^ 32 - 3) else 0))
      % 2 ^ 64
    ≡ (2 ^ 32 - 3) * 5
mult_words_lem_example = mult_words_lem (2 ^ 32 - 3) 5 true (omega arith) (omega arith)

-- Register 1 holds the greatest `int`, register 2 holds 1.
abbrev numbers : Machine
numbers = set_reg (set_reg program 1 (2 ^ 31 - 1)) 2 1

abbrev instruction : Instruction
instruction = record { value = 0; op_code = Opcode.add; rs = 1; rt = 2; rd = 3; extra = 0 }

add-sub_traps_example :
    (add_registers numbers instruction 8 ≡ (
      if sum_fits (2 ^ 31 - 1) 1 then sets numbers 8 3 (u32 (2 ^ 31 - 1 + 1)) else err (trapped 6)))
    × (sub_registers numbers instruction 8 ≡ (
        if difference_fits (2 ^ 31 - 1) 1
        then sets numbers 8 3 (sub32 (2 ^ 31 - 1) 1)
        else err (trapped 6)))
add-sub_traps_example = add-sub_traps numbers instruction 8 (omega arith) (omega arith)
