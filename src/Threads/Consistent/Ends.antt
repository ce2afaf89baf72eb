-- ===== src/Threads/Consistent/Ends.antt =====
-- The scheduler stays consistent through the end of a thread, its return after a SWITCH, and its start.
use mathlib.Core.Path.{subst, ap₂}
use nachos_project_2_os_subj.Base.{
  ℕ, zero, suc, ◌≡◌, ◌≢◌, ◌∙◌, refl, ap, sym, true, ◌==◌, inl, inr, List, [], ◌∷◌, Option, none,
  some, Result, ok, assert, deref, ◌>>=◌,
}
use nachos_project_2_os_subj.Lists.Reps.{none-some, self_eq}
use nachos_project_2_os_subj.Threads.{
  blocked, Thread, IntStatus, int_off, System, change_level, store_thread, assert_off,
}
use nachos_project_2_os_subj.UserMemory.Post.{Post, comes, fails, Post-bind, Post-any, Post-weaken}
use nachos_project_2_os_subj.Threads.Dispatch.{
  run, run_again, load_state, restore_user_state, restore_registers,
}
use nachos_project_2_os_subj.Machine.{num_total_regs}
use nachos_project_2_os_subj.AddrSpace.{AddrSpace}
use nachos_project_2_os_subj.Threads.Interrupts.{idle}
use nachos_project_2_os_subj.Threads.Clock.{yield_again}
use nachos_project_2_os_subj.Threads.Lifetime.{new_thread, wait_for_thread, sleep, finish}
use nachos_project_2_os_subj.Threads.Handlers.{Obey}
use nachos_project_2_os_subj.Threads.Invariant.{
  Statuses, Sched, Sched-run, Sched-stop, Sched-create,
}
use nachos_project_2_os_subj.Threads.Effects.{status_of, stored, statuses, run_lem, set_status_lem}
use nachos_project_2_os_subj.Threads.Consistent.{SchedBy, IsConsistent, SchedBy-Effect}
use nachos_project_2_os_subj.Threads.Consistent.Ticks.{
  TurnOk, IsConsistent-same, Found, with_ready, find_next_to_run_lem, set_level-TurnOk,
  this_is_current, TurnOk-of,
}
use nachos_project_2_os_subj.Threads.Consistent.Runs.{
  Sched-ending, check_to_be_destroyed-IsConsistent,
}

Sched-forget :
    {st : Statuses} {l : List ℕ} {runs doomed : Option ℕ}
    → Sched st l runs doomed
    → Sched st l runs none
Sched-forget s = record {
  listed = s.listed;
  counted = s.counted;
  alone = s.alone;
  runs_running = s.runs_running;
  ended = λ a e. absurd (none-some e);
  distinct = s.distinct;
}

nonempty : {x : ℕ} {xs : List ℕ} → [] ≢ x ∷ xs
nonempty e = cc

module _ {D : Type 0} (call_back : ℕ → System D → Result (System D)) (obey : Obey call_back) where
  -- With a thread ready, the loop of Sleep takes it at once.
  waits_not :
      (fuel next : ℕ) (rest : List ℕ) (w : System D)
      → w.scheduler.ready_list ≡ next ∷ rest
      → Post (λ r. r ≡ (with_ready rest w, next)) (wait_for_thread call_back fuel w)
  unfolding wait_for_thread
  waits_not zero next rest w e = fails _
  waits_not (suc fuel) next rest w e = Post-bind (find_next_to_run_lem w) (λ r found. taken r found)
    where
      taken :
          (r : System D × Option ℕ)
          → Found w r
          → Post
              (λ r. r ≡ (with_ready rest w, next))
              (elim r.1 [
                | some a ↦ ok (r.0, a)
                | none ↦ idle call_back r.0 >>= λ w₁. wait_for_thread call_back fuel w₁
              ])
      taken r (inl (f, q)) = absurd (nonempty (sym f ∙ e))
      taken r (inr (a, l, f, q)) =
          let same : a ∷ l ≡ next ∷ rest = sym f ∙ e in
          subst
            (λ r.
              Post (λ x. x ≡ (with_ready rest w, next))
                (elim r.1 [
                  | some b ↦ ok (r.0, b)
                  | none ↦ idle call_back r.0 >>= λ w₁. wait_for_thread call_back fuel w₁
                ]))
            (sym q) (comes _ (ap₂ (λ k b. (with_ready k w, b)) (cc) (cc)))

  -- The rest of Finish, where the thread has stopped and another one is ready.
  ends :
      (this next : ℕ) (rest : List ℕ) (w : System D)
      → w.scheduler.ready_list ≡ next ∷ rest
      → w.current_thread ≡ this
      → SchedBy none w
      → statuses w this ≡ some blocked
      → Post IsConsistent (run next true (with_ready rest w))
  unfolding statuses
  ends this next rest w e same s b =
      Post-weaken
        (λ v g.
          let start = subst (λ l. Sched (statuses w) l none w.scheduler.to_be_destroyed) e s in
          let ending = Sched-ending (statuses w) _ none this (Sched-forget start) b in
          let runs = Sched-run (statuses w) (statuses v) rest (some this) next ending g.status in
          let doomed : Sched (statuses v) rest (some next) (some w.current_thread) =
            subst (λ a. Sched (statuses v) rest (some next) (some a)) (sym same) runs in
          subst (λ c. SchedBy (some c) v) (sym g.current_is) (SchedBy-Effect (some next) g doomed))
        (run_lem next true (with_ready rest w))

  pub finish-IsConsistent :
      (fuel this next : ℕ) (rest : List ℕ) (w : System D)
      → IsConsistent w
      → w.scheduler.ready_list ≡ next ∷ rest
      → Post IsConsistent (finish call_back fuel this w)
  unfolding finish sleep statuses
  finish-IsConsistent fuel this next rest w s e =
      let w₀ = change_level int_off w in
      Post-bind (this_is_current this w₀) (λ _ same.
        Post-any (assert (this == w.current_thread)) _ (λ _. Post-any (assert_off w₀) _ (λ _.
          Post-bind (set_status_lem this blocked w₀) (λ w₁ f.
            Post-bind (waits_not fuel next rest w₁ (f.list_is ∙ e)) (λ r q.
              let stopped =
                Sched-stop (statuses w) (statuses w₁) _ _ this
                  (subst (λ c. SchedBy (some c) w) (sym same) s) f.status in
              let at_this : statuses w₁ this ≡ some blocked =
                f.status this ∙ rw (self_eq this) refl in
              subst (λ (r : System D × ℕ). Post IsConsistent (run r.1 true r.0)) (sym q)
                (ends this next rest w₁ (f.list_is ∙ e) (f.current_is ∙ sym same)
                  (SchedBy-Effect none f stopped) at_this))))))

  restore_user_state-IsConsistent :
      (a : ℕ) (w : System D)
      → IsConsistent w
      → Post (λ v. IsConsistent v × (v.current_thread ≡ w.current_thread)) (restore_user_state a w)
  unfolding restore_user_state
  restore_user_state-IsConsistent a w s = Post-any (deref (w.threads a)) _ (λ t.
      Post-any (deref w.machine) _ (λ m.
        Post-any (restore_registers num_total_regs 0 t.user_registers m) _
          (λ m₁. comes _ (IsConsistent-same w _ refl refl refl s, refl))))

  load_state-IsConsistent :
      (a : ℕ) (space : Option AddrSpace) (w : System D)
      → IsConsistent w
      → Post (λ v. IsConsistent v × (v.current_thread ≡ w.current_thread)) (load_state a space w)
  unfolding load_state
  load_state-IsConsistent a none w s = comes w (s, refl)
  load_state-IsConsistent a (some space) w s =
      Post-bind (restore_user_state-IsConsistent a w s) (λ w₁ k.
        Post-any (deref w₁.machine) _
          (λ m. comes _ (IsConsistent-same w₁ _ refl refl refl k.0, k.1)))

  pub run_again-IsConsistent :
      (a : ℕ) (w : System D)
      → IsConsistent w
      → Post (λ v. IsConsistent v × (v.current_thread ≡ w.current_thread)) (run_again a w)
  unfolding run_again
  run_again-IsConsistent a w s = Post-any (assert_off w) _ (λ _.
      Post-bind (check_to_be_destroyed-IsConsistent w s) (λ w₁ k.
        Post-any (deref (w₁.threads a)) _ (λ (t : Thread).
          Post-weaken (λ v h. (h.0, h.1 ∙ k.1)) (load_state-IsConsistent a t.space w₁ k.0))))

  pub yield_again-TurnOk :
      (fuel this : ℕ) (level : IntStatus) (w : System D)
      → IsConsistent w
      → Post (TurnOk w.current_thread) (yield_again call_back fuel this level w)
  unfolding yield_again
  yield_again-TurnOk fuel this level w s =
      Post-bind (run_again-IsConsistent this w s)
        (λ w₁ k. TurnOk-of k.1 (set_level-TurnOk call_back obey fuel level w₁ k.0))

  no_status : (w : System D) (a : ℕ) → w.threads a ≡ none → statuses w a ≡ none
  unfolding statuses
  no_status w a e = ap status_of e

  pub create-IsConsistent :
      (a : ℕ) (registers : ℕ → ℕ) (w : System D)
      → IsConsistent w
      → w.threads a ≡ none
      → IsConsistent (record w { threads = store_thread w.threads a (some (new_thread registers)) })
  unfolding new_thread
  create-IsConsistent a registers w s free =
      let t = new_thread registers in
      let v = record w { threads = store_thread w.threads a (some t) } in
      Sched-create (statuses w) (statuses v) _ _ _ a s (no_status w a free) (stored w a t)
