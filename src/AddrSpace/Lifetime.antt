-- ===== src/AddrSpace/Lifetime.antt =====
-- Building an address space and destroying it again.
use mathlib.Core.Path.{fun_ext}
use nachos_project_2_os_subj.Base.{
  ◌+◌, suc, zero, if◌then◌else◌, ltb, Bool, true, length, [], ◌∷◌, ◌||◌, false, ℕ, ◌-◌, ◌≤◌, ◌<◌,
  ◌≡◌, refl, ◌∙◌, arith, true, not, List, ok, some, ◌==◌, none,
}
use nachos_project_2_os_subj.Bitmap.{Bitmap, num_clear}
use nachos_project_2_os_subj.Bitmap.Search.{clear_below, num_clear_ext}
use nachos_project_2_os_subj.Bitmap.Marks.{is_set}
use nachos_project_2_os_subj.Machine.{TranslationEntry, num_phys_pages}
use nachos_project_2_os_subj.AddrSpace.{AddrSpace, Frames, with_memory, destroy}
use nachos_project_2_os_subj.AddrSpace.Load.{OpenFile, NoffHeader, read_header, construct}
use nachos_project_2_os_subj.AddrSpace.Allocate.{maps}
use nachos_project_2_os_subj.AddrSpace.Fill.{
  Framed-maps, clear_frames_lem, pages_of, IsProgram, IsReady, Built, fill_no_room, fill_builds,
}

pub not_zero : (n : ℕ) → 0 < n → not (n == 0) ≡ true
not_zero n l = ground arith

module _ {k : Frames} (r : IsReady k) where
  -- For a file whose header reads as one of a program of at most 128 pages, on a kernel whose
  -- bitmap is valid and covers the memory and whose addrLock is free: where fewer bits are clear
  -- than pages are needed, the constructor leaves the kernel as it was, with the lock free again,
  -- and gives an address space of no pages.
  pub construct_no_room :
      (file : OpenFile) (h : NoffHeader) (free : ℕ)
      → read_header file ≡ ok h
      → num_clear k.phys_page_map ≡ ok free
      → free < pages_of h
      → pages_of h ≤ num_phys_pages
      → construct (some file) k ≡ ok (k, record { page_table = none; num_pages = 0 })
  unfolding construct
  construct_no_room file h free header e few fits =
      rw
        (
          header,
          not_zero k.addr_lock r.unlocked,
          fill_no_room file h _ (record k { addr_lock = k.addr_lock - 1 }) free e few fits,
        )
        (ground (arith, r.unlocked))

module _ {file : OpenFile} {h : NoffHeader} (p : IsProgram file h) {k : Frames}
    (r : IsReady k) where
  -- For a program whose only segment to load is code at virtual address 0 and enough free frames,
  -- the constructor returns a page table of the computed number of pages over distinct frames that
  -- were free, takes exactly their bits, leaves the other frames as they were, and has read the
  -- code into them page by page, with zeros behind the end of the file.
  pub construct_builds :
      pages_of h ≤ clear_below (is_set k.phys_page_map) num_phys_pages
      → (b' : Bitmap) × (f' : ℕ → ℕ) × (table : List TranslationEntry) × (construct (some file) k
          ≡ ok (
            with_memory (record k { phys_page_map = b' }) f',
            record { page_table = some table; num_pages = pages_of h },
          ))
        × Built file h k b' f' table
  unfolding construct
  construct_builds enough =
      let (b', f', table, e, b) =
        fill_builds p (record k { addr_lock = k.addr_lock - 1 }) r.valid r.big enough in
      (
        b',
        f',
        table,
        rw (p.header, not_zero k.addr_lock r.unlocked, e) (ground (arith, r.unlocked)),
        record {
          valid = b.valid;
          bits = b.bits;
          pages = b.pages;
          distinct = b.distinct;
          fresh = b.fresh;
          was_clear = b.was_clear;
          taken = b.taken;
          outside = b.outside;
          code = b.code;
        },
      )

  -- For a program whose only segment to load is code at virtual address 0, on a kernel whose bitmap
  -- is valid and covers the memory and whose addrLock is free, with enough frames free: the
  -- constructor builds an address space, and destroying it gives back its frames and no others;
  -- every bit of the bitmap and the count of clear bits are as before, and the lock is free again.
  pub destroy-construct :
      pages_of h ≤ clear_below (is_set k.phys_page_map) num_phys_pages
      → (k' k'' : Frames) × (s : AddrSpace) × (construct (some file) k ≡ ok (k', s))
        × (destroy s k' ≡ ok k'')
        × ((j : ℕ) → is_set k''.phys_page_map j ≡ is_set k.phys_page_map j)
        × (num_clear k''.phys_page_map ≡ num_clear k.phys_page_map)
        × (k''.addr_lock ≡ k.addr_lock)
  unfolding destroy
  destroy-construct enough =
      let (b', f', table, e, b) = construct_builds enough in
      let framed = Framed-maps table (λ j q. (b.was_clear j q).1) in
      let (b'', c, v'', n, off) =
        clear_frames_lem table b.valid (omega (arith, b.bits, r.big)) framed in
      let same : (j : ℕ) → is_set b'' j ≡ is_set k.phys_page_map j =
        λ j. ground (arith, off j, b.taken j, b.was_clear j) in
      (
        with_memory (record k { phys_page_map = b' }) f',
        record (with_memory (record k { phys_page_map = b' }) f') { phys_page_map = b'' },
        record { page_table = some table; num_pages = pages_of h },
        e,
        rw c refl,
        same,
        num_clear_ext v'' r.valid (n ∙ b.bits) same,
        refl,
      )

-- Setting bit `k` takes at most one clear bit away below `n`, and none if `k` is not below `n`.
clear_below_one :
    (f g : ℕ → Bool) (k : ℕ)
    → ((j : ℕ) → g j ≡ (if k == j then true else f j))
    → (n : ℕ) → clear_below f n + (if ltb k n then 0 else 1) ≤ clear_below g n + 1
unfolding clear_below
clear_below_one f g k e zero = ground arith
clear_below_one f g k e (suc n) = ground (arith, clear_below_one f g k e n, e n)

-- A page table takes no more clear bits than it has pages.
clear_below-taken :
    (table : List TranslationEntry) (f g : ℕ → Bool) (n : ℕ)
    → ((j : ℕ) → g j ≡ (f j || maps table j))
    → clear_below f n ≤ clear_below g n + length table
clear_below-taken [] f g n e =
    let same : g ≡ f = fun_ext (λ j. ground (arith, e j)) in rw same (omega arith)
clear_below-taken (x ∷ xs) f g n e =
    let f₁ : ℕ → Bool = λ j. if x.physical_page == j then true else f j in
    omega (
      arith,
      clear_below-taken xs f₁ g n (λ j. ground (arith, e j)),
      clear_below_one f f₁ x.physical_page (λ j. refl) n,
    )

-- For two programs whose only segment to load is code at virtual address 0, on a kernel whose
-- bitmap is valid and covers the memory and whose addrLock is free: where enough frames of the
-- memory are free for both, the constructor of AddrSpace loads them one after the other, and they
-- share no frame.
pub constructs_apart :
    (f g : OpenFile) (h i : NoffHeader) (k : Frames)
    → IsProgram f h
    → IsProgram g i
    → IsReady k
    → pages_of h + pages_of i ≤ clear_below (is_set k.phys_page_map) num_phys_pages
    → (k₁ k₂ : Frames) × (t u : List TranslationEntry) × (construct (some f) k
        ≡ ok (k₁, record { page_table = some t; num_pages = pages_of h }))
      × (construct (some g) k₁ ≡ ok (k₂, record { page_table = some u; num_pages = pages_of i }))
      × ((j : ℕ) → maps t j ≡ true → maps u j ≡ false)
constructs_apart f g h i k p q r enough =
    let (b₁, f₁, t, e₁, built₁) = construct_builds p r (omega arith) in
    let k₁ = with_memory (record k { phys_page_map = b₁ }) f₁ in
    let r₁ : IsReady k₁ = record {
      valid = built₁.valid;
      big = omega (arith, built₁.bits, r.big);
      unlocked = r.unlocked;
    } in
    let (b₂, f₂, u, e₂, built₂) = construct_builds q r₁ (
      omega (
        arith,
        clear_below-taken t (is_set k.phys_page_map) (is_set b₁) num_phys_pages built₁.taken,
        built₁.pages,
      )) in
    (
      k₁,
      with_memory (record k₁ { phys_page_map = b₂ }) f₂,
      t,
      u,
      e₁,
      e₂,
      λ j on. ground (arith, built₁.taken j, built₂.was_clear j),
    )
