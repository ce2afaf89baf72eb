-- ===== src/AddrSpace/Exhausted.antt =====
-- gPhysPageBitMap has 512 bits, the memory 128 frames: what the constructor does when the frames of
-- the memory are in use and bits beyond them are clear.
use nachos_project_2_os_subj.Base.{
  ℕ, suc, ◌-◌, ◌≤◌, ◌<◌, ◌≡◌, refl, arith, true, some, ok, err, wild_access, inl, inr, dec_lt,
  le→leb, le→ltb, div_round_up,
}
use nachos_project_2_os_subj.Bitmap.{num_clear}
use nachos_project_2_os_subj.Bitmap.Marks.{IsValid, is_set}
use nachos_project_2_os_subj.Bitmap.Search.{find_and_set_lem}
use nachos_project_2_os_subj.Machine.{num_phys_pages, page_size}
use nachos_project_2_os_subj.AddrSpace.{Frames, zero_frame, allocate}
use nachos_project_2_os_subj.AddrSpace.Load.{OpenFile, NoffHeader, read_header, fill, construct}
use nachos_project_2_os_subj.AddrSpace.Fill.{IsReady, pages_of}
use nachos_project_2_os_subj.AddrSpace.Lifetime.{not_zero}

module _ (k : Frames) (v : IsValid k.phys_page_map)
    (full : (j : ℕ) → j < num_phys_pages → is_set k.phys_page_map j ≡ true) where
  -- FindAndSet gives a frame number beyond the memory, and bzero goes there.
  allocate_wild : (left i : ℕ) → allocate (suc left) i k ≡ err wild_access
  unfolding allocate zero_frame
  allocate_wild left i = elim (find_and_set_lem v) [
    | inl (all, r) ↦ rw r refl
    | inr (frame, l, off, low, r) ↦ elim (dec_lt frame num_phys_pages) [
      | yes within ↦ cc (full frame within)
      | no beyond ↦ rw (r, le→leb num_phys_pages frame (omega arith)) refl
    ]
  ]

  fill_wild :
      (file : OpenFile) (h : NoffHeader) (size pages free : ℕ)
      → div_round_up size page_size ≡ suc pages
      → suc pages ≤ num_phys_pages
      → num_clear k.phys_page_map ≡ ok free
      → suc pages ≤ free
      → fill file h size k ≡ err wild_access
  unfolding fill
  fill_wild file h size pages free e fits n room =
      rw
        (
          e,
          le→leb (suc pages) num_phys_pages fits,
          n,
          le→ltb free (suc pages) room,
          allocate_wild pages 0,
        )
        refl

-- For a file whose header reads as one of a program of 1 to 128 pages, on a kernel whose bitmap is
-- valid and covers the memory and whose addrLock is free: with every frame of the memory in use and
-- enough bits beyond the frames clear, the constructor does not report that there is too little
-- free space: it writes outside the physical memory.
pub construct_exhausted :
    (file : OpenFile) (h : NoffHeader) (k : Frames) (pages free : ℕ)
    → read_header file ≡ ok h
    → IsReady k
    → ((j : ℕ) → j < num_phys_pages → is_set k.phys_page_map j ≡ true)
    → pages_of h ≡ suc pages
    → suc pages ≤ num_phys_pages
    → num_clear k.phys_page_map ≡ ok free
    → suc pages ≤ free
    → construct (some file) k ≡ err wild_access
unfolding construct
construct_exhausted file h k pages free header r full e fits n room =
    rw
      (
        header,
        not_zero k.addr_lock r.unlocked,
        fill_wild (record k { addr_lock = k.addr_lock - 1 }) r.valid full file h _ pages free e fits
            n room,
      )
      refl
