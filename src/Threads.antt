-- ===== src/Threads.antt =====
-- threads/thread.h, threads/scheduler.h, machine/interrupt.h and machine/stats.h: the threads of the
-- kernel, the thread that runs and those that are ready, and the simulated clock with its interrupts.
pub mod Dispatch
pub mod Interrupts
pub mod Clock
pub mod Lifetime
pub mod Order
pub mod Handlers
pub mod Firing
pub mod Due
pub mod Invariant
pub mod Effects
pub mod Consistent
pub mod Switch
pub mod Rounds
pub mod Fuel
pub mod Timer
use nachos_project_2_os_subj.Base.{
  ℕ, Bool, true, false, not, List, [], Option, none, some, Result, ◌>>=◌, deref, assert,
  if◌then◌else◌, ◌==◌,
}
use nachos_project_2_os_subj.Machine.{Machine}
use nachos_project_2_os_subj.AddrSpace.{AddrSpace}

pub data ThreadStatus : Type 0 where
  just_created running ready blocked : ThreadStatus

-- `stack` is the word at the bottom of the stack, where a stack was allocated; `initial` is what
-- machineState names as the procedure to run, and its argument. A thread is named by its address.
pub record Thread : Type 0 where
  pub status : ThreadStatus
  pub stack : Option ℕ
  pub initial : Option (ℕ × ℕ)
  pub user_registers : ℕ → ℕ
  pub space : Option AddrSpace

-- Scheduler; the constructor leaves no thread ready and none to be destroyed.
pub record Scheduler : Type 0 where
  pub ready_list : List ℕ
  pub to_be_destroyed : Option ℕ

pub data IntStatus : Type 0 where
  int_off int_on : IntStatus

pub data MachineStatus : Type 0 where
  idle_mode system_mode user_mode : MachineStatus

pub data IntType : Type 0 where
  timer_int disk_int console_write_int console_read_int : IntType
  network_send_int network_recv_int : IntType

-- `call_on_interrupt` is the address of the object to call. `when` is an `int` that is not negative.
pub record PendingInterrupt : Type 0 where
  pub call_on_interrupt : ℕ
  pub when : ℕ
  pub type : IntType

pub record Interrupt : Type 0 where
  pub level : IntStatus
  pub pending : List PendingInterrupt
  pub in_handler : Bool
  pub yield_on_return : Bool
  pub status : MachineStatus

-- The clock of Statistics, in ticks.
pub record Statistics : Type 0 where
  pub total_ticks : ℕ
  pub idle_ticks : ℕ
  pub system_ticks : ℕ
  pub user_ticks : ℕ

-- The parts of the kernel that a switch of threads works on. `threads` is the memory that the
-- threads lie in, and `devices` what the interrupt handlers keep.
pub record System (D : Type 0) : Type 0 where
  pub current_thread : ℕ
  pub threads : ℕ → Option Thread
  pub scheduler : Scheduler
  pub interrupt : Interrupt
  pub stats : Statistics
  pub machine : Option Machine
  pub devices : D

abbrev pub new_scheduler : Scheduler
new_scheduler = record { ready_list = []; to_be_destroyed = none }

-- Interrupt::Interrupt
abbrev pub new_interrupt : Interrupt
new_interrupt = record {
  level = int_off;
  pending = [];
  in_handler = false;
  yield_on_return = false;
  status = system_mode;
}

-- Statistics::Statistics
abbrev pub new_statistics : Statistics
new_statistics = record { total_ticks = 0; idle_ticks = 0; system_ticks = 0; user_ticks = 0 }

abbrev pub is_off : IntStatus → Bool
is_off int_off = true
is_off int_on = false

abbrev pub is_null {ℓ} : {A : Type ℓ} → Option A → Bool
is_null none = true
is_null (some a) = false

-- A store to the thread at an address.
abbrev pub store_thread : (ℕ → Option Thread) → ℕ → Option Thread → ℕ → Option Thread
store_thread threads a t b = if a == b then t else threads b

module _ {D : Type 0} where
  -- ASSERT(kernel->interrupt->getLevel() == IntOff)
  abbrev pub assert_off : System D → Result (Unit {0})
  assert_off w = assert (is_off w.interrupt.level)

  abbrev pub change_level : IntStatus → System D → System D
  change_level now w = record w { interrupt = record w.interrupt { level = now } }

  -- Thread::setStatus, through a pointer to the thread.
  unfoldable pub set_status : ℕ → ThreadStatus → System D → Result (System D)
  set_status a st w = deref (w.threads a) >>= λ t.
      Result.ok (record w { threads = store_thread w.threads a (some (record t { status = st })) })
