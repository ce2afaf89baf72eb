-- ===== src/Machine/Bounds.antt =====
-- Where Machine::Translate may put an access: inside one page frame, inside the memory.
use nachos_project_2_os_subj.Base.{
  ℕ, zero, suc, [], ◌∷◌, ◌+◌, ◌*◌, ◌/◌, ◌%◌, ◌≤◌, ◌<◌, ◌≡◌, arith, Bool, true, false, List, none,
  some, ◌⊎◌, inl, inr, ◌≢◌, ok, length, get_elem?, get_elem?-lt, Bool-cases, dec_lt, ◌&&◌,
}
use nachos_project_2_os_subj.Bitmap.Bits.{bit_and-one, bit_and_three}
use nachos_project_2_os_subj.Machine.{
  Machine, TranslationEntry, ExceptionType, no_exception, page_fault, read_only_page, bus_error,
  address_error, page_size, num_phys_pages,
}
use nachos_project_2_os_subj.Machine.Translate.{
  translate, misaligned, find_entry, touched, touch, place, raised, placed, miss, hit,
}

-- The machine runs with a linear page table, as RestoreState leaves it.
pub record IsPaged (m : Machine) (table : List TranslationEntry) : Type 0 where
  pub no_tlb : m.tlb ≡ none
  pub paged : m.page_table ≡ some table
  pub sized : m.page_table_size ≡ length table

-- The sizes that ReadMem and WriteMem know.
abbrev pub IsSize : ℕ → Type 0
IsSize s = (s ≡ 1) ⊎ ((s ≡ 2) ⊎ (s ≡ 4))

-- The physical address of a virtual address on a given entry.
abbrev pub phys : TranslationEntry → ℕ → ℕ
phys entry virt_addr = entry.physical_page * page_size + virt_addr % page_size

aligned_fits : (a s : ℕ) → IsSize s → misaligned a s ≡ false → a % page_size + s ≤ page_size
unfolding misaligned
aligned_fits a s (inl e) h = omega arith
aligned_fits a s (inr (inl e)) h = ground (arith, bit_and-one a)
aligned_fits a s (inr (inr e)) h = ground (arith, bit_and_three a)

pub lt-get_elem? :
    {A : Type 0} (xs : List A) (i : ℕ) {a : A} → get_elem? xs i ≡ some a → i < length xs
lt-get_elem? [] i e = cc
lt-get_elem? (x ∷ xs) zero e = omega arith
lt-get_elem? (x ∷ xs) (suc i) e = omega (arith, lt-get_elem? xs i e)

-- An access that is granted: by a valid entry of the page, of an existing frame, and within it.
pub record Granted (m : Machine) (table : List TranslationEntry) (a s : ℕ) (w : Bool)
    (entry : TranslationEntry) : Type 0 where
  pub listed : get_elem? table (a / page_size) ≡ some entry
  pub valid : entry.valid ≡ true
  pub framed : entry.physical_page < num_phys_pages
  pub aligned : misaligned a s ≡ false
  pub writable : (entry.read_only && w) ≡ false
  pub fits : a % page_size + s ≤ page_size
  pub placing :
      translate m a s w ≡ ok (placed (phys entry a) (touch m (a / page_size) (touched entry w)))

module _ {m : Machine} {table : List TranslationEntry} (p : IsPaged m table) where
  pub find_entry_beyond :
      (vpn : ℕ) → length table ≤ vpn → find_entry m vpn ≡ ok (miss address_error)
  unfolding find_entry
  find_entry_beyond vpn h = ground (arith, p.no_tlb, p.paged, p.sized)

  module _ (vpn : ℕ) (e : TranslationEntry) (h : get_elem? table vpn ≡ some e)
      (l : vpn < length table) where
    pub find_entry_valid : e.valid ≡ true → find_entry m vpn ≡ ok (hit vpn e)
    unfolding find_entry
    find_entry_valid on = ground (arith, p.no_tlb, p.paged, p.sized)

    find_entry_invalid : e.valid ≡ false → find_entry m vpn ≡ ok (miss page_fault)
    unfolding find_entry
    find_entry_invalid off = ground (arith, p.no_tlb, p.paged, p.sized)

  place-Granted :
      (a s : ℕ) (w : Bool) (i : ℕ) (e : TranslationEntry)
      → (e.read_only && w) ≡ false
      → e.physical_page < num_phys_pages
      → a % page_size + s ≤ page_size
      → place m a s w i e ≡ ok (placed (phys e a) (touch m i (touched e w)))
  unfolding place
  place-Granted a s w i e writable framed fits = rw writable (ground arith)

  place_refused :
      (a s : ℕ) (w : Bool) (i : ℕ) (e : TranslationEntry)
      → ((e.read_only && w) ≡ true) ⊎ (num_phys_pages ≤ e.physical_page)
      → (which : ExceptionType) × (which ≢ no_exception) × (place m a s w i e ≡ ok (raised which))
  unfolding place
  place_refused a s w i e (inl h) = (read_only_page, (λ q. cc), rw h)
  place_refused a s w i e (inr h) = elim (Bool-cases (e.read_only && w)) [
    | inl r ↦ (read_only_page, (λ q. cc), rw r)
    | inr r ↦ (bus_error, (λ q. cc), rw r (ground arith))
  ]

  -- On a machine with a page table and no TLB, an aligned access of 1, 2 or 4 bytes through a valid
  -- entry that permits it and whose frame exists is granted: Translate gives the address in that
  -- frame, the access stays in the page, and the entry is marked used, and dirty by a write.
  pub translate-Granted :
      (a s : ℕ) (w : Bool) (e : TranslationEntry)
      → IsSize s
      → misaligned a s ≡ false
      → get_elem? table (a / page_size) ≡ some e
      → e.valid ≡ true
      → (e.read_only && w) ≡ false
      → e.physical_page < num_phys_pages
      → Granted m table a s w e
  unfolding translate
  translate-Granted a s w e z al h on writable framed = record {
    listed = h;
    valid = on;
    framed = framed;
    aligned = al;
    writable = writable;
    fits = aligned_fits a s z al;
    placing =
        rw (al, find_entry_valid (a / page_size) e h (lt-get_elem? table (a / page_size) h) on)
          (place-Granted a s w (a / page_size) e writable framed (aligned_fits a s z al));
  }

  abbrev pub Refused : ℕ → ℕ → Bool → Type 0
  Refused a s w =
      (which : ExceptionType) × (which ≢ no_exception) × (translate m a s w ≡ ok (raised which))

  translate_within :
      (a s : ℕ) (w : Bool) (e : TranslationEntry)
      → IsSize s
      → misaligned a s ≡ false
      → a / page_size < length table
      → get_elem? table (a / page_size) ≡ some e
      → Refused a s w ⊎ ((e : TranslationEntry) × Granted m table a s w e)
  unfolding translate
  translate_within a s w e z al l h = elim (Bool-cases e.valid) [
    | inr off ↦ inl (page_fault, (λ q. cc), rw (al, find_entry_invalid _ e h l off))
    | inl on ↦ elim (Bool-cases (e.read_only && w)) [
      | inl ro ↦
          let (which, n, r) = place_refused a s w (a / page_size) e (inl ro) in
          inl (which, n, rw (al, find_entry_valid _ e h l on) r)
      | inr writable ↦ elim (dec_lt e.physical_page num_phys_pages) [
        | no big ↦
            let (which, n, r) = place_refused a s w (a / page_size) e (inr (omega arith)) in
            inl (which, n, rw (al, find_entry_valid _ e h l on) r)
        | yes framed ↦ inr (e, translate-Granted a s w e z al h on writable framed)
      ]
    ]
  ]

  -- On a machine with a page table and no TLB, for an access of 1, 2 or 4 bytes, whatever the
  -- address and the entries are, Translate returns: with an exception, or with an address in the
  -- frame of the page's valid entry; its assertions do not fail.
  pub translate_cases :
      (a s : ℕ) (w : Bool)
      → IsSize s
      → Refused a s w ⊎ ((e : TranslationEntry) × Granted m table a s w e)
  unfolding translate
  translate_cases a s w z = elim (Bool-cases (misaligned a s)) [
    | inl odd ↦ inl (address_error, (λ q. cc), rw odd)
    | inr al ↦ elim (dec_lt (a / page_size) (length table)) [
      | no beyond ↦
          inl (address_error, (λ q. cc), rw (al, find_entry_beyond (a / page_size) (omega arith)))
      | yes l ↦
          let (e, h) = get_elem?-lt table (a / page_size) l in translate_within a s w e z al l h
    ]
  ]
