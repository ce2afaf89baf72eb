-- ===== src/Syscall/Transfer/Rounds.antt =====
-- The loop of SC_Write to the console ends.
use nachos_project_2_os_subj.Base.{
  ℕ, zero, suc, ◌+◌, ◌*◌, ◌/◌, ◌^◌, ◌<◌, ◌≤◌, ◌≡◌, ◌≢◌, refl, arith, List, length, length-set, Bool,
  true, false, inl, inr, ◌⊎◌, ◌==◌, ltb, lt→ltb, u32, some, Result, ok, err, Fault, out_of_fuel,
  ◌>>=◌,
}
use nachos_project_2_os_subj.Machine.{Machine, TranslationEntry, page_size}
use nachos_project_2_os_subj.Machine.Translate.{touched}
use nachos_project_2_os_subj.Machine.Memory.{read_mem}
use nachos_project_2_os_subj.Machine.Bounds.{IsPaged, phys, translate_cases, lt-get_elem?}
use nachos_project_2_os_subj.Machine.Bytes.{load_total}
use nachos_project_2_os_subj.Machine.RoundTrip.{touch-IsPaged, read_mem-Refused, read_mem-Granted}
use nachos_project_2_os_subj.UserMemory.{read_chars, user_to_system}
use nachos_project_2_os_subj.FileSystem.{Host}
use nachos_project_2_os_subj.Syscall.Transfer.{write_console, console_fuel}

-- A value with a property, or a failure that is not for want of fuel.
data Ends {A : Type 0} (P : A → Type 0) : Result A → Type 0 where
  yields : (a : A) → P a → Ends P (ok a)
  stops : (e : Fault) → e ≢ out_of_fuel → Ends P (err e)

Ends-bind :
    {A B : Type 0} {P : A → Type 0} {Q : B → Type 0} {m : Result A} {f : A → Result B}
    → Ends P m
    → ((a : A) → P a → Ends Q (f a))
    → Ends Q (m >>= f)
Ends-bind (yields a h) k = k a h
Ends-bind (stops e n) k = stops e n

Ends-cond :
    {A : Type 0} {P : A → Type 0} (b : Bool) (x y : Result A)
    → Ends P x
    → (b ≡ false → Ends P y)
    → Ends P (elim b [ true ↦ x | false ↦ y ])
Ends-cond true x y h k = h
Ends-cond false x y h k = k refl

err-injective :
    {A : Type 0} {a b : Fault}
    → (let failed : Fault → Result A = λ e. err e in failed a ≡ failed b)
    → a ≡ b
err-injective e = cc

Ends-eq : {A : Type 0} {P : A → Type 0} {r : Result A} → Ends P r → r ≢ err out_of_fuel
Ends-eq (yields a h) e = cc
Ends-eq (stops x n) e = n (err-injective e)

-- A page table that maps at most the frames of the memory.
unfoldable pub IsSmall : Machine → Type 0
IsSmall m = (table : List TranslationEntry) × IsPaged m table × (length table ≤ 128)

read_mem-IsSmall :
    (m : Machine) (a : ℕ)
    → IsSmall m
    → Ends (λ r. (v : ℕ) × (r.0 ≡ some v) × IsSmall r.1 × (a < 2 ^ 14)) (read_mem m a 1)
unfolding IsSmall
read_mem-IsSmall m a (table, p, small) = elim (translate_cases p a 1 false (inl refl)) [
  | inl refused ↦ rw (read_mem-Refused p a 1 refused) (stops _ λ e. cc)
  | inr (e, g) ↦
      let (x, h) = load_total m.main_memory (phys e a) 1 (inl refl) in
      let listed = lt-get_elem? table (a / page_size) g.listed in
      let same = length-set table (a / page_size) (touched e false) in
      let q = touch-IsPaged (a / page_size) (touched e false) p in
      rw (read_mem-Granted p a 1 g x h) (yields _ (x, refl, (_, q, omega arith), omega arith))
]

-- Characters that fill the buffer lie below the end of the address space.
Full : ℕ → ℕ → List ℕ × Machine → Type 0
Full left a (chars, m) = IsSmall m × ((left ≡ 0) ⊎ ((length chars < left) ⊎ (a + left ≤ 2 ^ 14)))

read_chars-Full : (left a : ℕ) (m : Machine) → IsSmall m → Ends (Full left a) (read_chars left a m)
unfolding read_chars Full
read_chars-Full zero a m s = yields _ (s, inl refl)
read_chars-Full (suc left) a m s = Ends-bind (read_mem-IsSmall m a s) λ r (v, e, s', h). rw e (
    Ends-cond (v == 0) _ _ (yields _ (s', inr (inl (omega arith)))) λ n.
      Ends-bind (read_chars-Full left (u32 (a + 1)) r.1 s')
        λ rest (t, full). yields _ (t, grind arith))

user_to_system-Full : (m : Machine) (a : ℕ) → IsSmall m → Ends (Full 255 a) (user_to_system m a 255)
unfolding user_to_system
user_to_system-Full m a s = read_chars-Full 255 a m s

module _ {W : Type 0} (host : Host W) where
  rounds_left :
      (fuel addr : ℕ) (chars : List ℕ) (m : Machine) (w : W)
      → IsSmall m
      → (length chars < 255) ⊎ ((addr + 255 ≤ 2 ^ 14) × (2 ^ 14 < addr + 255 * (fuel + 1)))
      → Ends (λ _. Unit {0}) (write_console host fuel addr chars m w)
  unfolding write_console Full
  rounds_left zero addr chars m w s h =
      let short : length chars < 255 = grind arith in
      rw (lt→ltb (length chars) 255 short) (yields _ tt)
  rounds_left (suc fuel) addr chars m w s h =
      Ends-cond (ltb (length chars) 255) _ _ (yields _ tt) λ more.
        Ends-bind (user_to_system-Full m (u32 (addr + 255)) s)
          λ r (t, full). rounds_left fuel (u32 (addr + 255)) r.0 r.1 _ t (grind arith)

  -- Where the program runs through a page table of at most 128 pages, with no TLB, 65 rounds are
  -- enough for the loop of SC_Write to the console, whatever it starts from.
  pub write_console_ends :
      (addr : ℕ) (chars : List ℕ) (m : Machine) (w : W)
      → IsSmall m
      → write_console host console_fuel addr chars m w ≢ err out_of_fuel
  unfolding write_console Full
  write_console_ends addr chars m w s = Ends-eq (
      Ends-cond (ltb (length chars) 255) _ _ (yields _ tt) λ more.
        Ends-bind (user_to_system-Full m (u32 (addr + 255)) s)
          λ r (t, full). rounds_left 64 (u32 (addr + 255)) r.0 r.1 _ t (grind arith))
