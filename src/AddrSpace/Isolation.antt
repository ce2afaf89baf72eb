-- ===== src/AddrSpace/Isolation.antt =====
-- User programs through ReadMem and WriteMem: an address space whose frames are its own.
use nachos_project_2_os_subj.Base.{
  ℕ, ◌+◌, ◌/◌, ◌%◌, ◌≤◌, ◌<◌, ◌≡◌, refl, sym, ◌∙◌, arith, Bool, true, false, List, Option, some,
  none, Result, ok, err, trapped, ap, ◌>>=◌, ◌⊎◌, inl, inr, length, dec_lt,
}
use nachos_project_2_os_subj.Machine.{Machine, TranslationEntry, page_size, exception_number}
use nachos_project_2_os_subj.Machine.Memory.{read_mem, write_mem, load}
use nachos_project_2_os_subj.Machine.Bounds.{
  IsPaged, IsSize, Granted, Refused, phys, translate_cases, translate-Granted,
}
use nachos_project_2_os_subj.Machine.Bytes.{store_lem, load_local, load_total}
use nachos_project_2_os_subj.Machine.Refusals.{Refused-same}
use nachos_project_2_os_subj.Machine.RoundTrip.{
  read_mem-Refused, write_mem-Refused, read_mem-Granted, write_mem-Granted, written,
  main_memory-written, written-IsPaged,
}
use nachos_project_2_os_subj.AddrSpace.{AddrSpace, restore_state}
use nachos_project_2_os_subj.AddrSpace.Allocate.{maps, covers}
use nachos_project_2_os_subj.AddrSpace.Contents.{maps-get_elem?}

-- What ReadMem gives, without the machine that it leaves.
abbrev pub value_read : Machine → ℕ → ℕ → Result (Option ℕ)
value_read m a s = read_mem m a s >>= λ r. ok r.0

value-Granted :
    {m : Machine} {table : List TranslationEntry} (p : IsPaged m table) (a s : ℕ)
    {e : TranslationEntry} (g : Granted m table a s false e) (x : ℕ)
    → load m.main_memory (phys e a) s ≡ ok x
    → value_read m a s ≡ ok (some x)
value-Granted p a s g x h = rw (read_mem-Granted p a s g x h) refl

value-Refused :
    {m : Machine} {table : List TranslationEntry} (p : IsPaged m table) (a s : ℕ)
    → (r : Refused p a s false) → value_read m a s ≡ err (trapped (exception_number r.0))
value-Refused p a s r = rw (read_mem-Refused p a s r) refl

-- The bytes of a granted access lie in the entry's frame.
in_frame :
    (e : TranslationEntry) (a s k : ℕ)
    → a % page_size + s ≤ page_size
    → k < s
    → (phys e a + k) / page_size ≡ e.physical_page
in_frame e a s k fits l = omega arith

-- A read goes by the page table and the bytes of its frames.
reads_same :
    {m₁ m₂ : Machine} {table : List TranslationEntry} (p₁ : IsPaged m₁ table)
    (p₂ : IsPaged m₂ table)
    → ((x : ℕ) → covers table x ≡ true → m₂.main_memory x ≡ m₁.main_memory x)
    → (a s : ℕ) → IsSize s
    → value_read m₂ a s ≡ value_read m₁ a s
reads_same {m₁} {m₂} {table} p₁ p₂ same a s z = elim (translate_cases p₁ a s false z) [
  | inr (e, g) ↦
      let (x, h) = load_total m₁.main_memory (phys e a) s z in
      let g₂ = translate-Granted p₂ a s false e z g.aligned g.listed g.valid g.writable g.framed in
      let h₂ = load_local m₂.main_memory m₁.main_memory (phys e a) s z (λ k l.
        same (phys e a + k)
          (rw (in_frame e a s k g.fits l) (maps-get_elem? table (a / page_size) g.listed))) in
      value-Granted p₂ a s g₂ x (h₂ ∙ h) ∙ sym (value-Granted p₁ a s g x h)
  | inl r ↦ elim (translate_cases p₂ a s false z) [
    | inl r₂ ↦
        value-Refused p₂ a s r₂
        ∙ ap (λ which. err (trapped (exception_number which))) (Refused-same p₂ p₁ a s false r₂ r)
        ∙ sym (value-Refused p₁ a s r)
    | inr (e, g) ↦ cc (
      r.2,
      (translate-Granted p₁ a s false e z g.aligned g.listed g.valid g.writable g.framed).placing,
    )
  ]
]

outside_frame :
    (table : List TranslationEntry) (e : TranslationEntry) (a s x : ℕ)
    → a % page_size + s ≤ page_size
    → maps table e.physical_page ≡ true
    → covers table x ≡ false
    → (x < phys e a) ⊎ (phys e a + s ≤ x)
outside_frame table e a s x fits on off = elim (dec_lt x (phys e a)) [
  | yes below ↦ inl below
  | no above ↦ elim (dec_lt x (phys e a + s)) [
    | no beyond ↦ inr (omega arith)
    | yes inside ↦ cc (on_frame inside above)
  ]
]
  where
    on_frame : x < phys e a + s → ¬ (x < phys e a) → true ≡ false
    on_frame inside above =
        let here : x / page_size ≡ e.physical_page = omega arith in sym on ∙ rw here at off

-- A write changes memory in the frames of its own page table only.
write_mem-covers :
    {m : Machine} {table : List TranslationEntry} (p : IsPaged m table) (a s v : ℕ)
    → IsSize s
    → {r : Bool} {m' : Machine} → write_mem m a s v ≡ ok (r, m')
    → (m'.tlb ≡ none) × ((x : ℕ) → covers table x ≡ false → m'.main_memory x ≡ m.main_memory x)
write_mem-covers {m} {table} p a s v z {m'} h = elim (translate_cases p a s true z) [
  | inl refused ↦ cc (write_mem-Refused p a s v refused)
  | inr (e, g) ↦
      let st = store_lem m.main_memory (phys e a) s v z in
      let same : m' ≡ written p a s e st.memory' = ground (arith, write_mem-Granted p a s g v st) in
      rw same (
        (written-IsPaged p a s e st.memory').no_tlb,
        λ x off. rw (main_memory-written p a s e st.memory') (
            st.same x (
              outside_frame table e a s x g.fits (maps-get_elem? table (a / page_size) g.listed)
                off)),
      )
]

-- What a program writes through its page table changes no read of a program whose page table names
-- no frame of the first: the reads give the same values, or halt the machine alike.
pub write_isolated :
    (s₁ s₂ : AddrSpace) (t u : List TranslationEntry) (m : Machine)
    → m.tlb ≡ none
    → s₁.page_table ≡ some t
    → s₁.num_pages ≡ length t
    → s₂.page_table ≡ some u
    → s₂.num_pages ≡ length u
    → ((j : ℕ) → maps t j ≡ true → maps u j ≡ false)
    → (a z v : ℕ) (r : Bool) (m' : Machine) → IsSize z
    → write_mem (restore_state s₁ m) a z v ≡ ok (r, m')
    → (b y : ℕ) → IsSize y
    → value_read (restore_state s₂ m') b y ≡ value_read (restore_state s₂ m) b y
unfolding restore_state
write_isolated s₁ s₂ t u m nt pt nt₁ pu nu apart a z v r m' size h b y size' =
    let (no_tlb, same) =
      write_mem-covers {m = restore_state s₁ m} {table = t}
        (record { no_tlb = nt; paged = pt; sized = nt₁ }) a z v size h in
    reads_same (record { no_tlb = nt; paged = pu; sized = nu })
      (record { no_tlb = no_tlb; paged = pu; sized = nu })
      (λ x in_u. same x (ground (arith, apart (x / page_size)))) b y size'
