-- ===== src/Machine/Translate.antt =====
-- machine/translate.cc, Machine::Translate.
use Prim.Native.Nat.{bit_and}
use nachos_project_2_os_subj.Base.{
  ℕ, ◌+◌, ◌*◌, ◌/◌, ◌%◌, Bool, true, false, not, ◌&&◌, ◌||◌, List, [], ◌∷◌, Option, none, some,
  Result, ok, ◌>>=◌, ◌>>◌, assert, deref, sle, u32, leb, if◌then◌else◌, ◌==◌, get_elem?, set,
}
use nachos_project_2_os_subj.Machine.{
  Machine, TranslationEntry, ExceptionType, page_fault, read_only_page, bus_error, address_error,
  page_size, num_phys_pages, memory_size,
}

abbrev pub is_null {ℓ} : {A : Type ℓ} → Option A → Bool
is_null none = true
is_null (some a) = false

pub data Lookup : Type 0 where
  miss : ExceptionType → Lookup
  hit : (index : ℕ) (entry : TranslationEntry) → Lookup

pub data Translated : Type 0 where
  raised : ExceptionType → Translated
  placed : (phys_addr : ℕ) (m : Machine) → Translated

unfoldable pub misaligned : ℕ → ℕ → Bool
misaligned virt_addr size =
    (size == 4 && not (bit_and virt_addr 3 == 0)) || (size == 2 && not (bit_and virt_addr 1 == 0))

unfoldable pub lookup_page : List TranslationEntry → ℕ → ℕ → Result Lookup
lookup_page table table_size vpn = if leb table_size vpn then ok (miss address_error) else do
  entry ← deref (get_elem? table vpn)
  ok (if entry.valid then hit vpn entry else miss page_fault)

-- The first valid entry for the page, from entry `i` on.
unfoldable pub lookup_tlb : List TranslationEntry → ℕ → ℕ → Lookup
lookup_tlb [] vpn i = miss page_fault
lookup_tlb (entry ∷ entries) vpn i =
    if entry.valid && entry.virtual_page == vpn then hit i entry else lookup_tlb entries vpn (i + 1)

unfoldable pub find_entry : Machine → ℕ → Result Lookup
unfolding lookup_page lookup_tlb
find_entry m vpn = do
  assert (is_null m.tlb || is_null m.page_table)
  assert (not (is_null m.tlb) || not (is_null m.page_table))
  elim m.tlb [
    | none ↦ deref m.page_table >>= λ table. lookup_page table m.page_table_size vpn
    | some entries ↦ ok (lookup_tlb entries vpn 0)
  ]

abbrev pub touched : TranslationEntry → Bool → TranslationEntry
touched entry writing = record entry { used = true; dirty = entry.dirty || writing }

abbrev set_entry :
    Option (List TranslationEntry) → ℕ → TranslationEntry → Option (List TranslationEntry)
set_entry none i entry = none
set_entry (some entries) i entry = some (set entries i entry)

-- The entry is a pointer into the table that it was found in.
unfoldable pub touch : Machine → ℕ → TranslationEntry → Machine
touch m i entry = elim m.tlb [
  | none ↦ record m { page_table = set_entry m.page_table i entry }
  | some entries ↦ record m { tlb = some (set entries i entry) }
]

unfoldable pub place : Machine → ℕ → ℕ → Bool → ℕ → TranslationEntry → Result Translated
unfolding touch
place m virt_addr size writing i entry =
    if entry.read_only && writing
    then ok (raised read_only_page)
    else if leb num_phys_pages entry.physical_page
    then ok (raised bus_error)
    else let phys_addr = u32 (entry.physical_page * page_size + virt_addr % page_size) in
      assert (sle 0 phys_addr && sle (u32 (phys_addr + size)) memory_size)
      >> ok (placed phys_addr (touch m i (touched entry writing)))

unfoldable pub translate : Machine → ℕ → ℕ → Bool → Result Translated
unfolding misaligned find_entry place
translate m virt_addr size writing =
    if misaligned virt_addr size
    then ok (raised address_error)
    else (find_entry m (virt_addr / page_size) >>= λ found. elim found [
      | miss which ↦ ok (raised which)
      | hit i entry ↦ place m virt_addr size writing i entry
    ])
