-- ===== src/Threads/Consistent/Runs.antt =====
-- The scheduler stays consistent whatever the threads do, in any order.
use mathlib.Core.Path.{subst}
use nachos_project_2_os_subj.Base.{
  ℕ, zero, suc, ◌≡◌, ◌≢◌, ◌∙◌, refl, ap, sym, false, inl, inr, List, ◌∷◌, Option, none, some,
  Result, ok, ◌>>=◌,
}
use nachos_project_2_os_subj.Lists.Chains.{some-injective}
use nachos_project_2_os_subj.Threads.{
  just_created, blocked, Thread, int_off, int_on, System, change_level, set_status, store_thread,
}
use nachos_project_2_os_subj.UserMemory.Post.{Post, comes, fails, Post-bind, Post-any, Post-weaken}
use nachos_project_2_os_subj.Threads.Dispatch.{
  stack_fencepost, ready_to_run, run, check_to_be_destroyed,
}
use nachos_project_2_os_subj.Threads.Interrupts.{idle}
use nachos_project_2_os_subj.Threads.Lifetime.{stack_allocate, fork, begin, wait_for_thread, sleep}
use nachos_project_2_os_subj.Threads.Handlers.{Obey}
use nachos_project_2_os_subj.Threads.Invariant.{
  Statuses, Sched, Sched-run, Sched-stop, Sched-ready, Sched-delete,
}
use nachos_project_2_os_subj.Threads.Effects.{
  same_status, status_at, statuses, ready_to_run_lem, run_lem, set_status_lem,
  check_to_be_destroyed_lem, Post-deref,
}
use nachos_project_2_os_subj.Threads.Consistent.{
  SchedBy, IsConsistent, SchedBy-Effect, idle-StillBy,
}
use nachos_project_2_os_subj.Threads.Consistent.Ticks.{
  TurnOk, IsConsistent-same, Found, with_ready, find_next_to_run_lem, set_level-TurnOk,
  this_is_current, TurnOk-of,
}

-- The same statuses, given one by one.
pub Sched-pointwise :
    {l : List ℕ} {runs doomed : Option ℕ} (st st' : Statuses)
    → ((b : ℕ) → st' b ≡ st b)
    → Sched st l runs doomed
    → Sched st' l runs doomed
Sched-pointwise st st' h s = record {
  listed = λ a k. h a ∙ s.listed a k;
  counted = λ a k. s.counted a (sym (h a) ∙ k);
  alone = λ a k. s.alone a (sym (h a) ∙ k);
  runs_running = λ a k. h a ∙ s.runs_running a k;
  ended = λ a k. h a ∙ s.ended a k;
  distinct = s.distinct;
}

-- A blocked thread that does not run is noted as the one to be destroyed.
pub Sched-ending :
    (st : Statuses) (l : List ℕ) (runs : Option ℕ) (a : ℕ)
    → Sched st l runs none
    → st a ≡ some blocked
    → Sched st l runs (some a)
Sched-ending st l runs a s b = record {
  listed = s.listed;
  counted = s.counted;
  alone = s.alone;
  runs_running = s.runs_running;
  ended = λ c e. ap st (sym (some-injective e)) ∙ b;
  distinct = s.distinct;
}

module _ {D : Type 0} where
  -- A thread taken off the ready list runs.
  pub run-IsConsistent :
      (next : ℕ) (rest : List ℕ) (w : System D)
      → Sched (statuses w) (next ∷ rest) none w.scheduler.to_be_destroyed
      → Post (λ v. IsConsistent v × (v.current_thread ≡ next)) (run next false (with_ready rest w))
  unfolding statuses
  run-IsConsistent next rest w s =
      Post-weaken
        (λ v g.
          let runs = Sched-run (statuses w) (statuses v) rest _ next s g.status in
          (
            subst (λ c. SchedBy (some c) v) (sym g.current_is) (SchedBy-Effect (some next) g runs),
            g.current_is,
          ))
        (run_lem next false (with_ready rest w))

  pub check_to_be_destroyed-IsConsistent :
      (w : System D)
      → IsConsistent w
      → Post (λ v. IsConsistent v × (v.current_thread ≡ w.current_thread)) (check_to_be_destroyed w)
  check_to_be_destroyed-IsConsistent w s =
      Post-weaken
        (λ v h. elim h [
          | inl (_, e) ↦ (subst IsConsistent (sym e) s, ap (λ u. u.current_thread) e)
          | inr (a, g, f) ↦
              let start =
                subst (Sched (statuses w) w.scheduler.ready_list (some w.current_thread)) g s in
              let deleted = Sched-delete (statuses w) (statuses v) _ _ a start f.status in
              (
                subst (λ c. SchedBy (some c) v) (sym f.current_is)
                    (SchedBy-Effect (some w.current_thread) f deleted),
                f.current_is,
              )
        ])
        (check_to_be_destroyed_lem w)

  module _ (call_back : ℕ → System D → Result (System D)) (obey : Obey call_back) where
    -- A thread was taken off the ready list of `u`, while no thread runs.
    abbrev TakenFrom : System D → System D × ℕ → Type 0
    TakenFrom u r =
        SchedBy none u
        × (rest : List ℕ) × (u.scheduler.ready_list ≡ r.1 ∷ rest)
        × (r.0 ≡ with_ready rest u)

    abbrev Taken : System D × ℕ → Type 0
    Taken r = (u : System D) × TakenFrom u r

    -- A round of the loop of Sleep, given what the further rounds do.
    abbrev looked : (System D → Result (System D × ℕ)) → System D × Option ℕ → Result (System D × ℕ)
    looked further r = elim r.1 [
      | some next ↦ ok (r.0, next)
      | none ↦ idle call_back r.0 >>= λ w₁. further w₁
    ]

    looked-Taken :
        (further : System D → Result (System D × ℕ)) (w : System D) (r : System D × Option ℕ)
        → ((u : System D) → SchedBy none u → Post Taken (further u))
        → SchedBy none w
        → Found w r
        → Post Taken (looked further r)
    looked-Taken further w r k s (inl (e, q)) =
        subst (λ r. Post Taken (looked further r)) (sym q)
          (Post-bind (idle-StillBy call_back obey none w s) (λ u still. k u still.0))
    looked-Taken further w r k s (inr (next, rest, e, q)) =
        subst (λ r. Post Taken (looked further r)) (sym q)
          (comes (with_ready rest w, next) (w, (s, rest, e, refl)))

    wait_for_thread-Taken :
        (fuel : ℕ) (w : System D) → SchedBy none w → Post Taken (wait_for_thread call_back fuel w)
    unfolding wait_for_thread
    wait_for_thread-Taken zero w s = fails _
    wait_for_thread-Taken (suc fuel) w s =
        Post-bind (find_next_to_run_lem w) (λ r f.
          looked-Taken (wait_for_thread call_back fuel) w r (wait_for_thread-Taken fuel) s f)

    -- The thread taken off runs.
    Taken-runs : (r : System D × ℕ) → Taken r → Post IsConsistent (run r.1 false r.0)
    Taken-runs r (u, (s, rest, e, q)) =
        subst (λ x. Post IsConsistent (run r.1 false x)) (sym q)
          (Post-weaken (λ v h. h.0)
            (run-IsConsistent r.1 rest u
              (subst (λ l. Sched (statuses u) l none u.scheduler.to_be_destroyed) e s)))

    blocked-SchedBy :
        (this : ℕ) (w : System D)
        → this ≡ w.current_thread
        → IsConsistent w
        → Post (SchedBy none) (set_status this blocked w)
    blocked-SchedBy this w same s =
        Post-weaken
          (λ v f. SchedBy-Effect none f (
            Sched-stop (statuses w) (statuses v) _ _ this
              (subst (λ c. SchedBy (some c) w) (sym same) s) f.status))
          (set_status_lem this blocked w)

    pub sleep-IsConsistent :
        (fuel this : ℕ) (w : System D)
        → IsConsistent w
        → Post IsConsistent (sleep call_back fuel this false w)
    unfolding sleep
    sleep-IsConsistent fuel this w s = Post-bind (this_is_current this w) (λ _ same.
        Post-any _ _ (λ _.
          Post-bind (blocked-SchedBy this w same s)
            (λ w₁ s₁. Post-bind (wait_for_thread-Taken fuel w₁ s₁) Taken-runs)))

    -- The stack of a thread is allocated: what Fork needs to know of the system then.
    abbrev Allocated : ℕ → System D → System D → Type 0
    Allocated a w v =
        IsConsistent v
        × (v.current_thread ≡ w.current_thread)
        × (statuses v a ≡ some just_created)
        × (v.scheduler.to_be_destroyed ≢ some a)

    stack_allocate-IsConsistent :
        (a func arg : ℕ) (t : Thread) (w : System D)
        → IsConsistent w
        → w.threads a ≡ some t
        → t.status ≡ just_created
        → Post (Allocated a w) (stack_allocate a func arg w)
    unfolding stack_allocate
    stack_allocate-IsConsistent a func arg t w s e j = Post-deref (w.threads a) _ (λ u f.
        let u' : Thread = record u { stack = some stack_fencepost; initial = some (func, arg) } in
        let v = record w { threads = store_thread w.threads a (some u') } in
        let same = same_status w a u u' f refl in
        let was : statuses v a ≡ some just_created = same a ∙ status_at w a t e ∙ ap some j in
        let begun : statuses w a ≡ some just_created = status_at w a t e ∙ ap some j in
        comes v (
          Sched-pointwise _ _ same s,
          refl,
          was,
          λ k.
              let ended = s.ended a k in
              (let q : some just_created ≡ some blocked = sym begun ∙ ended in cc),
        ))

    created-IsConsistent :
        (a : ℕ) (w : System D)
        → IsConsistent w
        → statuses w a ≡ some just_created
        → w.scheduler.to_be_destroyed ≢ some a
        → Post (λ v. IsConsistent v × (v.current_thread ≡ w.current_thread)) (ready_to_run a w)
    created-IsConsistent a w s b g =
        Post-weaken
          (λ v f.
            let queued =
              Sched-ready (statuses w) (statuses v) _ _ _ a just_created s b (λ q. cc) (λ q. cc) g
                f.status in
            (
              subst (λ c. SchedBy (some c) v) (sym f.current_is)
                  (SchedBy-Effect (some w.current_thread) f queued),
              f.current_is,
            ))
          (ready_to_run_lem a w)

    pub fork-TurnOk :
        (fuel a func arg : ℕ) (t : Thread) (w : System D)
        → IsConsistent w
        → w.threads a ≡ some t
        → t.status ≡ just_created
        → Post (TurnOk w.current_thread) (fork call_back fuel a func arg w)
    unfolding fork statuses
    fork-TurnOk fuel a func arg t w s e j =
        Post-bind (stack_allocate-IsConsistent a func arg t w s e j) (λ w₁ (s₁, k, b, g).
          let v = change_level int_off w₁ in
          Post-bind (created-IsConsistent a v (IsConsistent-same w₁ v refl refl refl s₁) b g)
            (λ w₂ h.
              TurnOk-of (h.1 ∙ k) (set_level-TurnOk call_back obey fuel w₁.interrupt.level w₂ h.0)))

    pub begin-TurnOk :
        (fuel this : ℕ) (w : System D)
        → IsConsistent w
        → Post (TurnOk w.current_thread) (begin call_back fuel this w)
    unfolding begin
    begin-TurnOk fuel this w s = Post-any _ _ (λ _.
        Post-bind (check_to_be_destroyed-IsConsistent w s)
          (λ w₁ k. TurnOk-of k.1 (set_level-TurnOk call_back obey fuel int_on w₁ k.0)))
