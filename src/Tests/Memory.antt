-- ===== src/Tests/Memory.antt =====
-- A machine with two pages, in frames 3 and 5, and two address spaces of one page each.
use nachos_project_2_os_subj.Base.{
  ℕ, ◌≡◌, ◌⊎◌, inr, refl, arith, true, false, List, ◌∷◌, [], some, none, ok,
}
use nachos_project_2_os_subj.Base.{◌<◌, zero, suc, get_elem?, ◌^◌, ◌*◌, ◌==◌, if◌then◌else◌, sub32}
use nachos_project_2_os_subj.Machine.{
  ExceptionType, num_total_regs, stack_reg, next_pc_reg, page_size,
}
use nachos_project_2_os_subj.AddrSpace
use nachos_project_2_os_subj.Machine.Translate
use nachos_project_2_os_subj.AddrSpace.{init_registers}
use nachos_project_2_os_subj.AddrSpace.Agree.{translate_agrees}
use nachos_project_2_os_subj.AddrSpace.Entry.{init_registers_lem}
use nachos_project_2_os_subj.Machine.{Machine, TranslationEntry}
use nachos_project_2_os_subj.Machine.Memory.{read_mem, write_mem, store4}
use nachos_project_2_os_subj.Machine.Translate.{touched, misaligned}
use nachos_project_2_os_subj.Machine.Bounds.{IsPaged, IsSize, Granted, Refused, translate_cases}
use nachos_project_2_os_subj.Machine.Bytes.{narrowed}
use nachos_project_2_os_subj.Machine.RoundTrip.{read_mem-write_mem}
use nachos_project_2_os_subj.AddrSpace.{AddrSpace, fresh_entry, restore_state}
use nachos_project_2_os_subj.AddrSpace.Allocate.{maps}
use nachos_project_2_os_subj.AddrSpace.Isolation.{value_read, write_isolated}

abbrev two_pages : List TranslationEntry
two_pages = fresh_entry 0 3 ∷ fresh_entry 1 5 ∷ []

abbrev paged : Machine
paged = record {
  registers = λ _. 0;
  main_memory = λ _. 0;
  tlb = none;
  page_table = some two_pages;
  page_table_size = 2;
}

paged-IsPaged : IsPaged paged two_pages
paged-IsPaged = record { no_tlb = refl; paged = refl; sized = refl }

four-IsSize : IsSize 4
four-IsSize = inr (inr refl)

translate_cases_example :
    Refused paged-IsPaged 132 4 true
    ⊎ ((e : TranslationEntry) × Granted paged two_pages 132 4 true e)
translate_cases_example = translate_cases paged-IsPaged 132 4 true four-IsSize

-- The machine that WriteMem of 77 at 132 leaves.
abbrev after_write : Machine
after_write = record paged {
  main_memory = store4 paged.main_memory 644 77;
  page_table = some (fresh_entry 0 3 ∷ touched (fresh_entry 1 5) true ∷ []);
}

write_done : write_mem paged 132 4 77 ≡ ok (true, after_write)
unfolding write_mem
write_done = refl

read_mem-write_mem_example :
    (true ≡ true) × (m'' : Machine) × (read_mem after_write 132 4 ≡ ok (some (narrowed 4 77), m''))
read_mem-write_mem_example =
    read_mem-write_mem paged-IsPaged 132 4 77 true after_write four-IsSize write_done

abbrev space_one : AddrSpace
space_one = record { page_table = some (fresh_entry 0 3 ∷ []); num_pages = 1 }

abbrev space_two : AddrSpace
space_two = record { page_table = some (fresh_entry 0 5 ∷ []); num_pages = 1 }

-- The machine after the first program has written 77 at 8.
abbrev first_wrote : Machine
first_wrote = record paged {
  main_memory = store4 paged.main_memory 392 77;
  page_table = some (touched (fresh_entry 0 3) true ∷ []);
  page_table_size = 1;
}

first_writes : write_mem (restore_state space_one paged) 8 4 77 ≡ ok (true, first_wrote)
unfolding write_mem restore_state
first_writes = refl

apart : (j : ℕ) → maps (fresh_entry 0 3 ∷ []) j ≡ true → maps (fresh_entry 0 5 ∷ []) j ≡ false
apart j e = ground arith

write_isolated_example :
    value_read (restore_state space_two first_wrote) 8 4
    ≡ value_read (restore_state space_two paged) 8 4
write_isolated_example =
    write_isolated space_one space_two (fresh_entry 0 3 ∷ []) (fresh_entry 0 5 ∷ []) paged refl refl
      refl refl refl apart 8 4 77 true first_wrote four-IsSize first_writes 8 4 four-IsSize

two_pages_good :
    (i : ℕ) (e : TranslationEntry)
    → get_elem? two_pages i ≡ some e
    → (e.valid ≡ true) × (e.physical_page < 2 ^ 31)
two_pages_good zero e h = ground arith
two_pages_good (suc zero) e h = ground arith
two_pages_good (suc (suc i)) e h = cc

translate_agrees_example :
    ((x : ExceptionType) × (AddrSpace.translate two_pages 2 132 true ≡ ok (AddrSpace.refused x))
      × (Translate.translate paged 132 4 true ≡ ok (Translate.raised x)))
    ⊎ ((pa : ℕ) × (table' : List TranslationEntry) × (m' : Machine) × (AddrSpace.translate two_pages
            2 132 true
          ≡ ok (AddrSpace.placed pa table'))
        × (Translate.translate paged 132 4 true ≡ ok (Translate.placed pa m'))
        × (m'.page_table ≡ some table'))
unfolding misaligned
translate_agrees_example =
    translate_agrees paged two_pages paged-IsPaged two_pages_good 132 4 true four-IsSize refl

init_registers_lem_example :
    (f : ℕ → ℕ) × (init_registers space_one paged ≡ ok (record paged { registers = f }))
    × ((r : ℕ)
        → r < num_total_regs
        → f r ≡ (
            if r == stack_reg then sub32 (1 * page_size) 16 else if r == next_pc_reg then 4 else 0))
init_registers_lem_example = init_registers_lem space_one paged
