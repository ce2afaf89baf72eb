-- ===== src/AddrSpace/Agree.antt =====
-- AddrSpace::Translate, which the kernel uses, against Machine::Translate, which programs use.
use nachos_project_2_os_subj.Base.{
  ℕ, ◌/◌, ◌^◌, ◌<◌, ◌≡◌, arith, Bool, true, false, ◌&&◌, Bool-cases, List, some, ok, ◌⊎◌, inl, inr,
  dec_lt, get_elem?, get_elem?-lt, set, length, leb,
}
use nachos_project_2_os_subj.Machine.{
  Machine, TranslationEntry, ExceptionType, address_error, read_only_page, bus_error, page_size,
  num_phys_pages,
}
use nachos_project_2_os_subj.Machine.Translate.{raised, touched, misaligned, touch, place}
use nachos_project_2_os_subj.Machine.Translate
use nachos_project_2_os_subj.Machine.Bounds.{
  IsPaged, IsSize, phys, translate-Granted, find_entry_beyond, find_entry_valid,
}
use nachos_project_2_os_subj.AddrSpace.{refused, placed}
use nachos_project_2_os_subj.AddrSpace

-- On a machine with a page table and no TLB whose entries are valid, with frame numbers below 2 ^
-- 31, and for an aligned access of 1, 2 or 4 bytes, AddrSpace::Translate and Machine::Translate
-- agree: both refuse with the same exception, or both give the same address and leave the same page
-- table.
pub translate_agrees :
    (m : Machine) (table : List TranslationEntry)
    → IsPaged m table
    → ((i : ℕ) (e : TranslationEntry)
        → get_elem? table i ≡ some e
        → (e.valid ≡ true) × (e.physical_page < 2 ^ 31))
    → (a s : ℕ) (w : Bool) → IsSize s
    → misaligned a s ≡ false
    → ((x : ExceptionType) × (AddrSpace.translate table (length table) a w ≡ ok (refused x))
        × (Translate.translate m a s w ≡ ok (raised x)))
      ⊎ ((pa : ℕ) × (table' : List TranslationEntry) × (m' : Machine) × (AddrSpace.translate table
              (length table)
              a
              w
            ≡ ok (placed pa table'))
          × (Translate.translate m a s w ≡ ok (Translate.placed pa m'))
          × (m'.page_table ≡ some table'))
unfolding AddrSpace.translate Translate.translate touch place
translate_agrees m table p good a s w z al = elim (dec_lt (a / page_size) (length table)) [
  | no beyond ↦
      let out : leb (length table) (a / page_size) ≡ true = ground arith in
      inl (address_error, rw out, rw (al, find_entry_beyond p (a / page_size) (omega arith)))
  | yes l ↦
      let (e, h) = get_elem?-lt table (a / page_size) l in
      let within : leb (length table) (a / page_size) ≡ false = ground arith in
      let (on, small) = good (a / page_size) e h in
      elim (Bool-cases (e.read_only && w)) [
        | inl ro ↦ inl (
          read_only_page,
          rw (within, h) (ground arith),
          rw (al, find_entry_valid p (a / page_size) e h l on) (ground arith),
        )
        | inr writable ↦ elim (dec_lt e.physical_page num_phys_pages) [
          | no big ↦ inl (
            bus_error,
            rw (within, h) (ground arith),
            rw (al, find_entry_valid p (a / page_size) e h l on) (ground arith),
          )
          | yes framed ↦
              let g = translate-Granted p a s w e z al h on writable framed in
              inr (
                phys e a,
                set table (a / page_size) (touched e w),
                touch m (a / page_size) (touched e w),
                rw (within, h) (ground arith),
                g.placing,
                ground (arith, p.no_tlb, p.paged),
              )
        ]
      ]
]
