-- ===== src/UserMemory/Kept.antt =====
-- What the copying of strings leaves as it was: the registers, and a page table that is in use.
use nachos_project_2_os_subj.Base.{
  ℕ, zero, suc, ◌+◌, ◌-◌, ◌/◌, ◌≡◌, ◌∙◌, refl, arith, true, false, ◌||◌, List, [], ◌∷◌, Result,
  no_memory, wild_access, inl, inr, ◌==◌, leb, slt, u32, deref, if◌then◌else◌,
}
use nachos_project_2_os_subj.Machine.{Machine, TranslationEntry, page_size}
use nachos_project_2_os_subj.Machine.Translate.{touched, touch}
use nachos_project_2_os_subj.Machine.Memory.{read_mem, write_mem, sign_extend}
use nachos_project_2_os_subj.Machine.Bounds.{IsPaged, IsSize, phys, translate_cases}
use nachos_project_2_os_subj.Machine.Bytes.{store_lem, load_total}
use nachos_project_2_os_subj.Machine.RoundTrip.{
  touch-IsPaged, read_mem-Refused, write_mem-Refused, read_mem-Granted, write_mem-Granted,
  written-IsPaged, registers-written,
}
use nachos_project_2_os_subj.UserMemory.{read_chars, user_to_system, write_chars, system_to_user}
use nachos_project_2_os_subj.UserMemory.Post.{
  Post, comes, fails, Post-bind, Post-if, Post-cond, Post-any,
}

pub registers-touch :
    (m : Machine) (i : ℕ) (e : TranslationEntry) → (touch m i e).registers ≡ m.registers
unfolding touch
registers-touch m i e = ground arith

-- A machine that runs a program through a page table.
unfoldable pub IsUser : Machine → Type 0
IsUser m = (table : List TranslationEntry) × IsPaged m table

pub registers-IsUser : (m : Machine) (f : ℕ → ℕ) → IsUser m → IsUser (record m { registers = f })
unfolding IsUser
registers-IsUser m f (table, p) =
    (table, record { no_tlb = p.no_tlb; paged = p.paged; sized = p.sized })

-- The machine m' runs a program too, with the registers of m.
pub record Kept (m m' : Machine) : Type 0 where
  pub user : IsUser m'
  pub registers : m'.registers ≡ m.registers

pub Kept-self : (m : Machine) → IsUser m → Kept m m
Kept-self m u = record { user = u; registers = refl }

pub Kept-trans : (m m' m'' : Machine) → Kept m m' → Kept m' m'' → Kept m m''
Kept-trans m m' m'' k l = record { user = l.user; registers = l.registers ∙ k.registers }

pub read_mem-Kept :
    (m : Machine) (a s : ℕ) → IsUser m → IsSize s → Post (λ r. Kept m r.1) (read_mem m a s)
unfolding IsUser
read_mem-Kept m a s (table, p) z = elim (translate_cases p a s false z) [
  | inl refused ↦ rw (read_mem-Refused p a s refused) (fails _)
  | inr (e, g) ↦
      let (x, h) = load_total m.main_memory (phys e a) s z in
      let q = touch-IsPaged (a / page_size) (touched e false) p in
      rw (read_mem-Granted p a s g x h) (
        comes _ (record {
          user = (_, q);
          registers = registers-touch m (a / page_size) (touched e false);
        }))
]

write_mem-Kept :
    (m : Machine) (a s v : ℕ) → IsUser m → IsSize s → Post (λ r. Kept m r.1) (write_mem m a s v)
unfolding IsUser
write_mem-Kept m a s v (table, p) z = elim (translate_cases p a s true z) [
  | inl refused ↦ rw (write_mem-Refused p a s v refused) (fails _)
  | inr (e, g) ↦
      let st = store_lem m.main_memory (phys e a) s v z in
      rw (write_mem-Granted p a s g v st) (
        comes _ (record {
          user = (_, written-IsPaged p a s e st.memory');
          registers = registers-written p a s e st.memory';
        }))
]

-- A routine that comes back with the machine m', after others that have kept the machine.
pub further :
    {A : Type 0} {m m' : Machine} {r : Result (A × Machine)}
    → Kept m m'
    → Post (λ x. Kept m' x.1) r
    → Post (λ x. Kept m x.1) r
further k (comes x l) = comes x (Kept-trans _ _ _ k l)
further k (fails e) = fails e

read_chars-Kept :
    (left a : ℕ) (m : Machine) → IsUser m → Post (λ r. Kept m r.1) (read_chars left a m)
unfolding read_chars
read_chars-Kept zero a m u = comes _ (Kept-self m u)
read_chars-Kept (suc left) a m u = Post-bind (read_mem-Kept m a 1 u (inl refl)) λ r k.
    Post-any (deref r.0) _ λ c.
      Post-cond (c == 0) _ _ (comes _ k) (
        Post-bind (further k (read_chars-Kept left (u32 (a + 1)) r.1 k.user)) (λ rest l. comes _ l))

pub user_to_system-Kept :
    (m : Machine) (a limit : ℕ) → IsUser m → Post (λ r. Kept m r.1) (user_to_system m a limit)
unfolding user_to_system
user_to_system-Kept m a limit u =
    Post-if (slt (u32 (limit + 1)) 0) _ _ (fails no_memory)
      (read_chars-Kept (if slt limit 0 then 0 else limit) a m u)

write_chars-Kept :
    (left : ℕ) (bytes : List ℕ) (a i : ℕ) (m : Machine)
    → IsUser m
    → Post (λ r. Kept m r.1) (write_chars left bytes a i m)
unfolding write_chars
write_chars-Kept left [] a i m u = fails wild_access
write_chars-Kept left (b ∷ bytes) a i m u =
    Post-bind (write_mem-Kept m a 1 (sign_extend b) u (inl refl)) λ r k.
      Post-cond (leb left 1 || b == 0) _ _ (comes _ k)
        (further k (write_chars-Kept (left - 1) bytes (u32 (a + 1)) (i + 1) r.1 k.user))

pub system_to_user-Kept :
    (m : Machine) (a len : ℕ) (buffer : List ℕ)
    → IsUser m
    → Post (λ r. Kept m r.1) (system_to_user m a len buffer)
unfolding system_to_user
system_to_user-Kept m a len buffer u =
    Post-if (slt len 0) _ _ (comes _ (Kept-self m u))
      (Post-if (len == 0) _ _ (comes _ (Kept-self m u)) (write_chars-Kept len buffer a 0 m u))
