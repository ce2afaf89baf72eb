-- ===== src/Mips/Bounds.antt =====
-- Machines whose registers and memory hold words and bytes, and what reads and writes of memory
-- leave of that.
use nachos_project_2_os_subj.Base.{
  ℕ, ◌+◌, ◌/◌, ◌^◌, ◌<◌, ◌≡◌, ◌≢◌, refl, arith, true, false, inl, inr, some, ok,
}
use nachos_project_2_os_subj.Machine.{
  Machine, page_size, update, load_reg, load_value_reg, delayed_load,
}
use nachos_project_2_os_subj.Machine.Translate.{touched}
use nachos_project_2_os_subj.Machine.Memory.{read_mem, write_mem, load}
use nachos_project_2_os_subj.Machine.Bounds.{IsSize, phys, translate_cases}
use nachos_project_2_os_subj.Machine.Bytes.{store_lem, load_total}
use nachos_project_2_os_subj.Machine.RoundTrip.{
  touch-IsPaged, main_memory-touch, read_mem-Refused, write_mem-Refused, read_mem-Granted,
  write_mem-Granted, written-IsPaged, registers-written, main_memory-written,
}
use nachos_project_2_os_subj.UserMemory.Kept.{IsUser, registers-IsUser, registers-touch}
use nachos_project_2_os_subj.UserMemory.Post.{Post, comes, fails}
use nachos_project_2_os_subj.Mips.{set_reg}

-- A machine that runs a program: registers of 32 bits, bytes, and a load on its way to a register
-- that an instruction can name.
pub record Words (m : Machine) : Type 0 where
  pub user : IsUser m
  pub registers : (r : ℕ) → m.registers r < 2 ^ 32
  pub memory : (a : ℕ) → m.main_memory a < 2 ^ 8
  pub load : m.registers load_reg < 32

load_bound :
    (f : ℕ → ℕ) (a s x : ℕ) → IsSize s → ((k : ℕ) → f k < 256) → load f a s ≡ ok x → x < 2 ^ 32
unfolding load
load_bound f a s x (inl e) h l = ground (arith, h a)
load_bound f a s x (inr (inl e)) h l = ground (arith, h a, h (a + 1))
load_bound f a s x (inr (inr e)) h l = ground (arith, h a, h (a + 1), h (a + 2), h (a + 3))

pub read_mem-Words :
    (m : Machine) (a s : ℕ)
    → Words m
    → IsSize s
    → Post (λ r. (v : ℕ) × (r.0 ≡ some v) × (v < 2 ^ 32) × Words r.1) (read_mem m a s)
unfolding IsUser
read_mem-Words m a s w z =
    let (table, p) = w.user in
    elim (translate_cases p a s false z) [
      | inl refused ↦ rw (read_mem-Refused p a s refused) (fails _)
      | inr (e, g) ↦
          let (x, h) = load_total m.main_memory (phys e a) s z in
          let i = a / page_size in
          let regs = registers-touch m i (touched e false) in
          rw (read_mem-Granted p a s g x h) (
            comes _ (
              x,
              refl,
              load_bound m.main_memory (phys e a) s x z w.memory h,
              record {
                user = (_, touch-IsPaged i (touched e false) p);
                registers = rw regs w.registers;
                memory = rw (main_memory-touch m i (touched e false)) w.memory;
                load = rw regs w.load;
              },
            ))
    ]

pub write_mem-Words :
    (m : Machine) (a s v : ℕ)
    → Words m
    → IsSize s
    → Post (λ r. (r.0 ≡ true) × Words r.1) (write_mem m a s v)
unfolding IsUser
write_mem-Words m a s v w z =
    let (table, p) = w.user in
    elim (translate_cases p a s true z) [
      | inl refused ↦ rw (write_mem-Refused p a s v refused) (fails _)
      | inr (e, g) ↦
          let st = store_lem m.main_memory (phys e a) s v z in
          let regs = registers-written p a s e st.memory' in
          rw (write_mem-Granted p a s g v st) (
            comes _ (
              refl,
              record {
                user = (_, written-IsPaged p a s e st.memory');
                registers = rw regs w.registers;
                memory = rw (main_memory-written p a s e st.memory') λ j. st.bytes j w.memory;
                load = rw regs w.load;
              },
            ))
    ]

pub set_reg-Words :
    (m : Machine) (i v : ℕ) → Words m → i ≢ load_reg → v < 2 ^ 32 → Words (set_reg m i v)
set_reg-Words m i v w n h = record {
  user = registers-IsUser m (update m.registers i v) w.user;
  registers = λ r. ground (arith, w.registers r);
  memory = w.memory;
  load = ground (arith, w.load);
}

pub delayed_load-Words :
    (m : Machine) (i v : ℕ) → Words m → i < 32 → v < 2 ^ 32 → Words (delayed_load m i v)
unfolding delayed_load
delayed_load-Words m i v w h k = record {
  user = registers-IsUser m _ w.user;
  registers = λ r. ground (arith, w.registers r, w.registers load_value_reg);
  memory = w.memory;
  load = ground (arith, w.load);
}
