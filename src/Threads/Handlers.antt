-- ===== src/Threads/Handlers.antt =====
-- What an interrupt handler may do, and which handlers CheckIfDue calls.
use nachos_project_2_os_subj.Base.{ℕ, ◌≡◌, ◌≢◌, ◌∙◌, refl, ap, sym, arith, some, Result, ok}
use nachos_project_2_os_subj.Threads.{blocked, Thread, IntType, System, set_status}
use nachos_project_2_os_subj.Threads.Dispatch.{ready_to_run}
use nachos_project_2_os_subj.Threads.Interrupts.{schedule, yield_on_return}
use nachos_project_2_os_subj.Threads.Order.{due, due-insert, schedule_cases}

-- A handler schedules interrupts, makes threads ready that are blocked and not finished, asks for a
-- switch of threads, and changes what the devices keep.
pub data Does {D : Type 0} (w : System D) : System D → Type 0 where
  done : Does w w
  schedules :
      {u v : System D} (to_call from_now : ℕ) (type : IntType)
      → Does w u
      → schedule to_call from_now type u ≡ ok v
      → Does w v
  readies :
      {u v : System D} (thread : ℕ) (t : Thread)
      → Does w u
      → u.threads thread ≡ some t
      → t.status ≡ blocked
      → u.scheduler.to_be_destroyed ≢ some thread
      → ready_to_run thread u ≡ ok v
      → Does w v
  yields : {u v : System D} → Does w u → yield_on_return u ≡ ok v → Does w v
  changes : {u : System D} (d : D) → Does w u → Does w (record u { devices = d })

-- The handlers do no more than that.
abbrev pub Obey : {D : Type 0} → (ℕ → System D → Result (System D)) → Type 0
Obey {D} call_back = (i : ℕ) (w v : System D) → call_back i w ≡ ok v → Does w v

-- What no handler changes: the thread that runs, the clock, the level and the mode of the machine, and
-- which interrupts are due.
pub record Kept {D : Type 0} (w v : System D) : Type 0 where
  pub current : v.current_thread ≡ w.current_thread
  pub clock : v.stats ≡ w.stats
  pub level : v.interrupt.level ≡ w.interrupt.level
  pub status : v.interrupt.status ≡ w.interrupt.status
  pub handling : v.interrupt.in_handler ≡ w.interrupt.in_handler
  pub due_kept :
      due w.stats.total_ticks v.interrupt.pending ≡ due w.stats.total_ticks w.interrupt.pending

module _ {D : Type 0} where
  Kept-trans : (w u v : System D) → Kept w u → Kept u v → Kept w v
  Kept-trans w u v h k = record {
    current = k.current ∙ h.current;
    clock = k.clock ∙ h.clock;
    level = k.level ∙ h.level;
    status = k.status ∙ h.status;
    handling = k.handling ∙ h.handling;
    due_kept =
        ap (λ s. due s.total_ticks v.interrupt.pending) (sym h.clock)
        ∙ k.due_kept
        ∙ ap (λ s. due s.total_ticks u.interrupt.pending) h.clock
        ∙ h.due_kept;
  }

  schedule-Kept :
      (to_call from_now : ℕ) (type : IntType) (w v : System D)
      → schedule to_call from_now type w ≡ ok v
      → Kept w v
  schedule-Kept to_call from_now type w v e =
      let (when, _, later, _, q) = schedule_cases to_call from_now type w v e in
      rw q (record {
        current = refl;
        clock = refl;
        level = refl;
        status = refl;
        handling = refl;
        due_kept = due-insert w.stats.total_ticks _ w.interrupt.pending later;
      })

  ready_to_run-Kept : (thread : ℕ) (w v : System D) → ready_to_run thread w ≡ ok v → Kept w v
  unfolding ready_to_run set_status
  ready_to_run-Kept thread w v e = record {
    current = ground arith;
    clock = ground arith;
    level = ground arith;
    status = ground arith;
    handling = ground arith;
    due_kept = ground arith;
  }

  yield_on_return-Kept : (w v : System D) → yield_on_return w ≡ ok v → Kept w v
  unfolding yield_on_return
  yield_on_return-Kept w v e = record {
    current = ground arith;
    clock = ground arith;
    level = ground arith;
    status = ground arith;
    handling = ground arith;
    due_kept = ground arith;
  }

  pub Does-Kept : {w v : System D} → Does w v → Kept w v
  Does-Kept {w = w} done = record {
    current = refl;
    clock = refl;
    level = refl;
    status = refl;
    handling = refl;
    due_kept = refl;
  }
  Does-Kept (schedules to_call from_now type d e) =
      Kept-trans _ _ _ (Does-Kept d) (schedule-Kept to_call from_now type _ _ e)
  Does-Kept (readies thread t d _ _ _ e) =
      Kept-trans _ _ _ (Does-Kept d) (ready_to_run-Kept thread _ _ e)
  Does-Kept (yields d e) = Kept-trans _ _ _ (Does-Kept d) (yield_on_return-Kept _ _ e)
  Does-Kept (changes x d) =
      let k = Does-Kept d in
      record {
        current = k.current;
        clock = k.clock;
        level = k.level;
        status = k.status;
        handling = k.handling;
        due_kept = k.due_kept;
      }
