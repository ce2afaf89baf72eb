-- ===== src/Threads/Consistent.antt =====
-- The scheduler stays consistent: through interrupts and their handlers, and through the routines of
-- threads up to their SWITCH.
pub mod Ticks
pub mod Runs
pub mod Ends
pub mod Steps
use mathlib.Core.Path.{subst, ap₂}
use nachos_project_2_os_subj.Base.{
  ℕ, zero, suc, ◌≡◌, ◌≢◌, ◌∙◌, refl, ap, sym, Bool, true, false, arith, List, [], ◌∷◌, ◌++◌, length,
  Option, ltb, none, some, Result, ok, err, ◌>>=◌,
}
use nachos_project_2_os_subj.Threads.{
  IntType, PendingInterrupt, ThreadStatus, running, ready, blocked, Thread, Scheduler, System,
  idle_mode, system_mode,
}
use nachos_project_2_os_subj.UserMemory.Post.{
  Post, comes, fails, Post-of, Post-bind, Post-any, Post-at, Post-cond, Post-weaken, Post-if,
  Post-list,
}
use nachos_project_2_os_subj.Threads.Dispatch.{ready_to_run, run}
use nachos_project_2_os_subj.Threads.Interrupts.{
  set_pending, set_in_handler, settle_machine, schedule, yield_on_return, fire, is_due,
  call_handlers, check_if_due, idle, advance_clock,
}
use nachos_project_2_os_subj.Threads.Clock.{set_machine_status}
use nachos_project_2_os_subj.Threads.Order.{schedule_cases}
use nachos_project_2_os_subj.Threads.Handlers.{
  Does, done, schedules, readies, yields, changes, Obey, Kept, Does-Kept,
}
use nachos_project_2_os_subj.Threads.Invariant.{
  Statuses, Changed, Sched, Sched-ready, Sched-stop, Sched-run, Sched-requeue,
}
use nachos_project_2_os_subj.Threads.Effects.{statuses, status_of, Effect, ready_to_run_lem}

module _ {D : Type 0} where
  -- The threads and the ready list agree, with `runs` as the thread that is RUNNING.
  abbrev pub SchedBy : Option ℕ → System D → Type 0
  SchedBy runs w = Sched (statuses w) w.scheduler.ready_list runs w.scheduler.to_be_destroyed

  -- The same, with the current thread.
  abbrev pub IsConsistent : System D → Type 0
  IsConsistent w = SchedBy (some w.current_thread) w

  pub SchedBy-same :
      (runs : Option ℕ) (w v : System D)
      → v.threads ≡ w.threads
      → v.scheduler ≡ w.scheduler
      → SchedBy runs w
      → SchedBy runs v
  unfolding statuses
  SchedBy-same runs w v e f s =
      subst
        (λ (u : (ℕ → Option Thread) × Scheduler).
          Sched (λ a. status_of (u.0 a)) u.1.ready_list runs u.1.to_be_destroyed)
        (ap₂ (λ a b. (a, b)) (sym e) (sym f)) s

  -- After a change of one status, what the new status and list say.
  pub SchedBy-Effect :
      {w v : System D} {a current : ℕ} {st : Option ThreadStatus} {l : List ℕ} {doomed : Option ℕ}
      (runs : Option ℕ)
      → Effect w v a st current l doomed
      → Sched (statuses v) l runs doomed
      → SchedBy runs v
  SchedBy-Effect {v = v} runs e s =
      subst (λ (u : List ℕ × Option ℕ). Sched (statuses v) u.0 runs u.1)
        (ap₂ (λ a b. (a, b)) (sym e.list_is) (sym e.gone_is)) s

  -- What a handler leaves.
  abbrev pub StillBy : Option ℕ → System D → System D → Type 0
  StillBy runs w v = SchedBy runs v × (v.current_thread ≡ w.current_thread)

  ready-SchedBy :
      (runs : Option ℕ) (a : ℕ) (t : Thread) (w v : System D)
      → w.threads a ≡ some t
      → t.status ≡ blocked
      → w.scheduler.to_be_destroyed ≢ some a
      → ready_to_run a w ≡ ok v
      → SchedBy runs w
      → SchedBy runs v
  unfolding statuses
  ready-SchedBy runs a t w v e b n r s =
      let f = Post-at _ v (ready_to_run_lem a w) r in
      SchedBy-Effect runs f (
        Sched-ready _ _ _ runs _ a blocked s (ap status_of e ∙ ap some b) (λ q. cc) (λ q. cc) n
          f.status)

  schedule-SchedBy :
      (runs : Option ℕ) (w v : System D) (to_call from_now : ℕ) (type : IntType)
      → schedule to_call from_now type w ≡ ok v
      → SchedBy runs w
      → SchedBy runs v
  schedule-SchedBy runs w v to_call from_now type e s =
      let (_, _, _, _, q) = schedule_cases _ _ type w v e in
      SchedBy-same runs w v (ap (λ u. u.threads) q) (ap (λ u. u.scheduler) q) s

  yields-SchedBy :
      (runs : Option ℕ) (w v : System D)
      → yield_on_return w ≡ ok v
      → SchedBy runs w
      → SchedBy runs v
  unfolding yield_on_return
  yields-SchedBy runs w v e s = SchedBy-same runs w v (ground arith) (ground arith) s

  pub Does-SchedBy : (runs : Option ℕ) {w v : System D} → Does w v → SchedBy runs w → SchedBy runs v
  Does-SchedBy runs done s = s
  Does-SchedBy runs (schedules to_call from_now type d e) s =
      schedule-SchedBy runs _ _ to_call from_now type e (Does-SchedBy runs d s)
  Does-SchedBy runs (readies a t d e b n r) s =
      ready-SchedBy runs a t _ _ e b n r (Does-SchedBy runs d s)
  Does-SchedBy runs (yields d e) s = yields-SchedBy runs _ _ e (Does-SchedBy runs d s)
  Does-SchedBy runs (changes x d) s = SchedBy-same runs _ _ refl refl (Does-SchedBy runs d s)

  module _ (call_back : ℕ → System D → Result (System D)) (obey : Obey call_back) where
    call_back-StillBy :
        (runs : Option ℕ) (next : PendingInterrupt) (rest : List PendingInterrupt) (w : System D)
        → SchedBy runs w
        → Post (StillBy runs w) (call_back next.call_on_interrupt (set_pending rest w))
    call_back-StillBy runs next rest w s = Post-of _ (λ v e.
        let d = obey next.call_on_interrupt (set_pending rest w) v e in
        (
          Does-SchedBy runs d (SchedBy-same runs w (set_pending rest w) refl refl s),
          (Does-Kept d).current,
        ))

    fire-StillBy :
        (runs : Option ℕ) (fuel : ℕ) (w : System D)
        → SchedBy runs w
        → Post (StillBy runs w) (fire call_back fuel w)
    unfolding fire
    fire-StillBy runs zero w s = fails _
    fire-StillBy runs (suc fuel) w s = Post-list w.interrupt.pending _ _ (fails _) (λ next rest.
        Post-bind (call_back-StillBy runs next rest w s) (λ w₁ k.
          Post-cond (is_due w₁.interrupt.pending w₁.stats.total_ticks) _ _
            (Post-weaken (λ v h. (h.0, h.1 ∙ k.1)) (fire-StillBy runs fuel w₁ k.0)) (comes w₁ k)))

    call_handlers-StillBy :
        (runs : Option ℕ) (w : System D)
        → SchedBy runs w
        → Post (λ r. StillBy runs w r.0) (call_handlers call_back w)
    unfolding call_handlers
    call_handlers-StillBy runs w s =
        let ready = set_in_handler true (settle_machine w) in
        Post-bind
          (fire-StillBy runs (length w.interrupt.pending) ready
            (SchedBy-same runs w ready refl refl s))
          (λ v k. comes _ (SchedBy-same runs v (set_in_handler false v) refl refl k.0, k.1))

    pub check_if_due-StillBy :
        (runs : Option ℕ) (advance : Bool) (w : System D)
        → SchedBy runs w
        → Post (λ r. StillBy runs w r.0) (check_if_due call_back advance w)
    unfolding check_if_due
    check_if_due-StillBy runs advance w s = Post-any _ _ (λ _.
        Post-list w.interrupt.pending _ _ (comes _ (s, refl)) (λ next rest.
          Post-cond (ltb w.stats.total_ticks next.when) _ _
            (Post-cond advance _ _
              (call_handlers-StillBy runs (advance_clock next w)
                (SchedBy-same runs w (advance_clock next w) refl refl s))
              (comes _ (s, refl)))
            (call_handlers-StillBy runs w s)))

    pub idle-StillBy :
        (runs : Option ℕ) (w : System D) → SchedBy runs w → Post (StillBy runs w) (idle call_back w)
    unfolding idle
    idle-StillBy runs w s =
        let at_rest = set_machine_status idle_mode w in
        Post-bind (check_if_due-StillBy runs true at_rest (SchedBy-same runs w at_rest refl refl s))
          (λ r k.
            Post-if r.1 _ _
              (comes _
                (SchedBy-same runs r.0 (set_machine_status system_mode r.0) refl refl k.0, k.1))
              (fails _))
