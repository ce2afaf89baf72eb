-- ===== src/Syscall/Advance.antt =====
-- A system call that returns to the program has moved its program counters on.
pub mod Files
pub mod Transfer
pub mod Console
pub mod Processes
pub mod Handler
use nachos_project_2_os_subj.Base.{
  ℕ, zero, suc, ◌+◌, ◌%◌, ◌^◌, ◌≡◌, ◌≢◌, ◌∙◌, refl, ap, arith, Bool, true, false, ◌||◌, ◌&&◌, not,
  List, [], ◌∷◌, Option, none, some, Result, ok, err, ◌>>=◌, ◌<◌, ◌==◌, if◌then◌else◌, slt, u32,
}
use nachos_project_2_os_subj.Machine.{
  Machine, pc_reg, next_pc_reg, prev_pc_reg, num_total_regs, read_register, write_register, update,
}
use nachos_project_2_os_subj.UserMemory.{increase_pc, user_to_system}
use nachos_project_2_os_subj.UserMemory.Post.{
  Post, comes, fails, Post-if, Post-cond, Post-of, Post-at, Post-bind, Post-any, Post-option,
}
use nachos_project_2_os_subj.UserMemory.Kept.{
  IsUser, Kept, Kept-self, Kept-trans, further, registers-IsUser, user_to_system-Kept,
  system_to_user-Kept, read_mem-Kept,
}
use nachos_project_2_os_subj.Syscall.State.{
  Kernel, Outcome, returned, sleeping, ended, finish, answer, answer_ready, string_arg,
}

-- The machine m' goes on after the instruction that trapped on m: of the registers, only the
-- program counters and the result have changed.
pub record Advanced (m m' : Machine) : Type 0 where
  pub user : IsUser m'
  pub pc : m'.registers pc_reg ≡ u32 (m.registers pc_reg + 4)
  pub next_pc : m'.registers next_pc_reg ≡ u32 (m.registers pc_reg + 8)
  pub prev_pc : m'.registers prev_pc_reg ≡ m.registers pc_reg
  pub others :
      (r : ℕ)
      → r ≢ 2
      → r ≢ pc_reg
      → r ≢ next_pc_reg
      → r ≢ prev_pc_reg
      → m'.registers r ≡ m.registers r

-- What a call that starts on the machine m may come to.
pub Good : {W : Type 0} → Machine → Outcome W → Type 0
Good m (returned k ready) = Advanced m k.machine
Good m (sleeping k ready) = Kept m k.machine
Good m (ended k ready) = Kept m k.machine

-- The registers after IncreasePC.
moved_on : (ℕ → ℕ) → ℕ → ℕ
moved_on f =
    update (update (update f prev_pc_reg (f pc_reg)) pc_reg (u32 (f pc_reg + 4))) next_pc_reg
      (u32 (u32 (f pc_reg + 4) + 4))

increase_pc_lem : (m : Machine) → increase_pc m ≡ ok (record m { registers = moved_on m.registers })
unfolding increase_pc read_register write_register moved_on
increase_pc_lem m = refl

answered : (ℕ → ℕ) → ℕ → ℕ → ℕ
answered f v = moved_on (update f 2 v)

moved_on-Advanced :
    (m m' : Machine) → Kept m m' → Advanced m (record m' { registers = moved_on m'.registers })
unfolding moved_on
moved_on-Advanced m m' h = record {
  user = registers-IsUser m' (moved_on m'.registers) h.user;
  pc = rw h.registers refl;
  next_pc = rw h.registers (omega arith);
  prev_pc = rw h.registers refl;
  others = rw h.registers λ r n a b c. ground arith;
}

answered-Advanced :
    (m m' : Machine) (v : ℕ)
    → Kept m m'
    → Advanced m (record m' { registers = answered m'.registers v })
unfolding answered moved_on
answered-Advanced m m' v h = record {
  user = registers-IsUser m' (answered m'.registers v) h.user;
  pc = rw h.registers refl;
  next_pc = rw h.registers (omega arith);
  prev_pc = rw h.registers refl;
  others = rw h.registers λ r n a b c. ground arith;
}

module _ {W : Type 0} where
  pub finish-Good : (m : Machine) (k : Kernel W) → Kept m k.machine → Post (Good m) (finish k)
  unfolding finish Good
  finish-Good m k h = rw (increase_pc_lem k.machine) (comes _ (moved_on-Advanced m k.machine h))

  pub answer_ready-Good :
      (m : Machine) (k : Kernel W) (v : ℕ) (ready : List ℕ)
      → Kept m k.machine
      → Post (Good m) (answer_ready k v ready)
  unfolding answer_ready write_register answered Good
  answer_ready-Good m k v ready h =
      rw (increase_pc_lem (record (k.machine) { registers = update k.machine.registers 2 v }))
        (comes _ (answered-Advanced m k.machine v h))

  pub answer-Good :
      (m : Machine) (k : Kernel W) (v : ℕ) → Kept m k.machine → Post (Good m) (answer k v)
  unfolding answer
  answer-Good m k v h = answer_ready-Good m k v [] h

  pub sleeping-Good :
      (m : Machine) (k : Kernel W) (ready : List ℕ)
      → Kept m k.machine
      → Post (Good m) (ok (sleeping k ready))
  unfolding Good
  sleeping-Good m k ready h = comes _ h

  pub ended-Good :
      (m : Machine) (k : Kernel W) (ready : List ℕ)
      → Kept m k.machine
      → Post (Good m) (ok (ended k ready))
  unfolding Good
  ended-Good m k ready h = comes _ h

  pub string_arg-Kept :
      (m : Machine) (k : Kernel W) (n limit : ℕ)
      → Kept m k.machine
      → Post (λ r. Kept m r.0.machine) (string_arg k n limit)
  unfolding string_arg
  string_arg-Kept m k n limit h =
      Post-any (read_register k.machine n) _
        λ a. Post-bind (further h (user_to_system-Kept k.machine a limit h.user)) (λ r l. comes _ l)
