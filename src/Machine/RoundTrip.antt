-- ===== src/Machine/RoundTrip.antt =====
-- WriteMem followed by ReadMem through the same page table.
use nachos_project_2_os_subj.Base.{
  ℕ, ◌/◌, ◌≡◌, refl, arith, Bool, true, false, List, some, inl, inr, ◌≢◌, ok, err, trapped, set,
  length-set, get_elem?-set_self,
}
use nachos_project_2_os_subj.Machine.{
  Machine, TranslationEntry, ExceptionType, no_exception, page_size, raise_exception, trap,
  exception_number,
}
use nachos_project_2_os_subj.Machine.Translate.{touched, touch}
use nachos_project_2_os_subj.Machine.Memory.{read_mem, write_mem, load}
use nachos_project_2_os_subj.Machine.Bounds.{
  IsPaged, IsSize, Granted, Refused, phys, translate_cases, translate-Granted, lt-get_elem?,
}
use nachos_project_2_os_subj.Machine.Bytes.{Stores, store_lem, narrowed}

pub touch-IsPaged :
    {m : Machine} {table : List TranslationEntry} (i : ℕ) (e : TranslationEntry)
    → IsPaged m table
    → IsPaged (touch m i e) (set table i e)
unfolding touch
touch-IsPaged {m} {table} i e p = ground (arith, p.no_tlb, p.paged, p.sized, length-set table i e)

pub main_memory-touch :
    (m : Machine) (i : ℕ) (e : TranslationEntry) → (touch m i e).main_memory ≡ m.main_memory
unfolding touch
main_memory-touch m i e = ground arith

pub raise-halts :
    (m : Machine) (which : ExceptionType) (a : ℕ)
    → which ≢ no_exception
    → raise_exception m which a ≡ err (trapped (exception_number which))
unfolding raise_exception trap
raise-halts m which a n = ground arith

module _ {m : Machine} {table : List TranslationEntry} (p : IsPaged m table) (a s : ℕ) where
  pub read_mem-Refused :
      (r : Refused p a s false) → read_mem m a s ≡ err (trapped (exception_number r.0))
  unfolding read_mem
  read_mem-Refused (which, n, r) = rw (r, raise-halts m which a n)

  pub write_mem-Refused :
      (v : ℕ) (r : Refused p a s true) → write_mem m a s v ≡ err (trapped (exception_number r.0))
  unfolding write_mem
  write_mem-Refused v (which, n, r) = rw (r, raise-halts m which a n)

  -- The machine after a write that is granted.
  pub written : TranslationEntry → (ℕ → ℕ) → Machine
  written e memory = record (touch m (a / page_size) (touched e true)) { main_memory = memory }

  pub write_mem-Granted :
      {e : TranslationEntry} (g : Granted m table a s true e) (v : ℕ)
      (st : Stores m.main_memory (phys e a) s v)
      → write_mem m a s v ≡ ok (true, written e st.memory')
  unfolding write_mem written
  write_mem-Granted {e} g v st =
      rw (g.placing, main_memory-touch m (a / page_size) (touched e true), st.stored) refl

  pub read_mem-Granted :
      {e : TranslationEntry} (g : Granted m table a s false e) (x : ℕ)
      → load m.main_memory (phys e a) s ≡ ok x
      → read_mem m a s ≡ ok (some x, touch m (a / page_size) (touched e false))
  unfolding read_mem
  read_mem-Granted {e} g x h =
      rw (g.placing, main_memory-touch m (a / page_size) (touched e false), h) refl

  pub written-IsPaged :
      (e : TranslationEntry) (memory : ℕ → ℕ)
      → IsPaged (written e memory) (set table (a / page_size) (touched e true))
  unfolding written
  written-IsPaged e memory =
      let q = touch-IsPaged (a / page_size) (touched e true) p in
      record { no_tlb = q.no_tlb; paged = q.paged; sized = q.sized }

  pub registers-written :
      (e : TranslationEntry) (memory : ℕ → ℕ) → (written e memory).registers ≡ m.registers
  unfolding written touch
  registers-written e memory = ground arith

  pub main_memory-written :
      (e : TranslationEntry) (memory : ℕ → ℕ) → (written e memory).main_memory ≡ memory
  unfolding written
  main_memory-written e memory = refl

module _ {m : Machine} {table : List TranslationEntry} (p : IsPaged m table) (a s v : ℕ) where
  -- The entry that the write has marked dirty grants the read of the same place.
  regranted :
      {e : TranslationEntry} (g : Granted m table a s true e) (memory : ℕ → ℕ)
      → IsSize s
      → Granted
          (written p a s e memory)
          (set table (a / page_size) (touched e true))
          a
          s
          false
          (touched e true)
  regranted {e} g memory z =
      translate-Granted (written-IsPaged p a s e memory) a s false (touched e true) z g.aligned
        (get_elem?-set_self table (a / page_size) (touched e true)
          (lt-get_elem? table (a / page_size) g.listed))
        g.valid (ground arith) g.framed

  -- On a machine with a page table and no TLB, a WriteMem of 1, 2 or 4 bytes that returns has
  -- succeeded, and a ReadMem of the same size at the same address then gives the written value cut
  -- to that size, a single byte as a signed char.
  pub read_mem-write_mem :
      (r : Bool) (m' : Machine)
      → IsSize s
      → write_mem m a s v ≡ ok (r, m')
      → (r ≡ true) × (m'' : Machine) × (read_mem m' a s ≡ ok (some (narrowed s v), m''))
  read_mem-write_mem r m' z h = elim (translate_cases p a s true z) [
    | inl no_write ↦ cc (write_mem-Refused p a s v no_write)
    | inr (e, g) ↦
        let st = store_lem m.main_memory (phys e a) s v z in
        let done = write_mem-Granted p a s g v st in
        let same : m' ≡ written p a s e st.memory' = ground (arith, done) in
        let back =
          read_mem-Granted (written-IsPaged p a s e st.memory') a s (regranted g st.memory' z)
            (narrowed s v) (rw (main_memory-written p a s e st.memory') st.back) in
        (
          ground (arith, done),
          touch (written p a s e st.memory') (a / page_size) (touched (touched e true) false),
          rw same back,
        )
  ]
