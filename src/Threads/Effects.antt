-- ===== src/Threads/Effects.antt =====
-- What the operations of the scheduler do to the status of the threads and to the ready list.
use mathlib.Core.Path.{subst}
use nachos_project_2_os_subj.Base.{
  ℕ, ◌≡◌, ◌∙◌, refl, ap, sym, ◌==◌, Bool, true, false, ◌⊎◌, inl, inr, List, [], ◌∷◌, ◌++◌, Option,
  none, some, Result, ok, deref, ==_iff, ◌>>=◌, if◌then◌else◌,
}
use nachos_project_2_os_subj.Threads.{
  ThreadStatus, running, ready, Thread, System, store_thread, set_status,
}
use nachos_project_2_os_subj.Machine.{num_total_regs}
use nachos_project_2_os_subj.AddrSpace.{AddrSpace}
use nachos_project_2_os_subj.UserMemory.Post.{Post, comes, fails, Post-bind, Post-any, Post-weaken}
use nachos_project_2_os_subj.Threads.Dispatch.{
  ready_to_run, run, mark_finishing, save_state, save_user_state, delete_thread, check_overflow,
  save_registers, check_to_be_destroyed,
}
use nachos_project_2_os_subj.Threads.Invariant.{Statuses, Changed}

abbrev pub status_of : Option Thread → Option ThreadStatus
status_of none = none
status_of (some t) = some t.status

stored_at :
    (here : Bool) (t : Thread) (o : Option Thread)
    → status_of (if here then some t else o) ≡ (if here then some t.status else status_of o)
stored_at true t o = refl
stored_at false t o = refl

kept_at :
    (here : Bool) (t : Thread) (o : Option Thread)
    → (here ≡ true → o ≡ some t)
    → (u : Thread) → u.status ≡ t.status
    → status_of (if here then some u else o) ≡ status_of o
kept_at true t o h u e = ap some e ∙ sym (ap status_of (h refl))
kept_at false t o h u e = refl

dropped_at :
    (here : Bool) (o : Option Thread)
    → status_of (if here then none else o) ≡ (if here then none else status_of o)
dropped_at true o = refl
dropped_at false o = refl

pub Post-deref {ℓ κ μ} :
    {A : Type ℓ} {B : Type μ} {P : B → Type κ} (o : Option A) (f : A → Result B)
    → ((a : A) → o ≡ some a → Post P (f a))
    → Post P (deref o >>= f)
Post-deref none f k = fails _
Post-deref (some a) f k = k a refl

module _ {D : Type 0} where
  unfoldable pub statuses : System D → Statuses
  statuses w a = status_of (w.threads a)

  -- A status changes at one address, and what else a scheduler keeps is known.
  pub record Effect (w v : System D) (a : ℕ) (st : Option ThreadStatus) (current : ℕ)
      (list : List ℕ) (doomed : Option ℕ) : Type 0 where
    pub status : Changed (statuses w) a st (statuses v)
    pub current_is : v.current_thread ≡ current
    pub list_is : v.scheduler.ready_list ≡ list
    pub gone_is : v.scheduler.to_be_destroyed ≡ doomed
    pub interrupts : v.interrupt ≡ w.interrupt

  pub stored :
      (w : System D) (a : ℕ) (t : Thread)
      → Changed
          (statuses w)
          a
          (some t.status)
          (statuses (record w { threads = store_thread w.threads a (some t) }))
  unfolding statuses
  stored w a t b = stored_at (a == b) t (w.threads b)

  pub set_status_lem :
      (a : ℕ) (st : ThreadStatus) (w : System D)
      → Post
          (λ v.
            Effect w v a
              (some st)
              w.current_thread
              w.scheduler.ready_list
              w.scheduler.to_be_destroyed)
          (set_status a st w)
  unfolding set_status
  set_status_lem a st w = Post-any _ _ (λ t. comes _ (record {
    status = stored w a _;
    current_is = refl;
    list_is = refl;
    gone_is = refl;
    interrupts = refl;
  }))

  pub ready_to_run_lem :
      (a : ℕ) (w : System D)
      → Post
          (λ v.
            Effect w v a
              (some ready)
              w.current_thread
              (w.scheduler.ready_list ++ a ∷ [])
              w.scheduler.to_be_destroyed)
          (ready_to_run a w)
  unfolding ready_to_run statuses
  ready_to_run_lem a w = Post-any _ _ (λ _. Post-bind (set_status_lem a ready w) (λ v e.
      Post-any _ _ (λ _. comes _ (record {
        status = e.status;
        current_is = e.current_is;
        list_is = ap (λ l. l ++ a ∷ []) e.list_is;
        gone_is = e.gone_is;
        interrupts = e.interrupts;
      }))))

  -- Saving the state of a thread changes no status.
  pub record Saved (w v : System D) : Type 0 where
    status : (b : ℕ) → statuses v b ≡ statuses w b
    current : v.current_thread ≡ w.current_thread
    scheduler : v.scheduler ≡ w.scheduler
    interrupt : v.interrupt ≡ w.interrupt

  pub status_at :
      (w : System D) (a : ℕ) (t : Thread) → w.threads a ≡ some t → statuses w a ≡ some t.status
  unfolding statuses
  status_at w a t e = ap status_of e

  -- A store that leaves the status of the thread leaves all.
  pub same_status :
      (w : System D) (a : ℕ) (t u : Thread)
      → w.threads a ≡ some t
      → u.status ≡ t.status
      → (b : ℕ)
      → statuses (record w { threads = store_thread w.threads a (some u) }) b ≡ statuses w b
  unfolding statuses
  same_status w a t u e k b =
      kept_at (a == b) t (w.threads b) (λ h. ap w.threads (sym ((==_iff a b).0 h)) ∙ e) u k

  save_state_lem :
      (a : ℕ) (space : Option AddrSpace) (w : System D) → Post (Saved w) (save_state a space w)
  unfolding save_state save_user_state
  save_state_lem a none w =
      comes w (record { status = λ b. refl; current = refl; scheduler = refl; interrupt = refl })
  save_state_lem a (some space) w = Post-deref (w.threads a) _ (λ t e.
      Post-deref w.machine _ (λ m _.
        Post-any (save_registers num_total_regs 0 m t.user_registers) _ (λ saved. comes _ (record {
          status = same_status w a t _ e refl;
          current = refl;
          scheduler = refl;
          interrupt = refl;
        }))))

  mark_finishing_lem :
      (finishing : Bool) (w : System D)
      → Post
          (λ v. v ≡ record w {
            scheduler = record w.scheduler {
              to_be_destroyed =
                  if finishing then some w.current_thread else w.scheduler.to_be_destroyed;
            };
          })
          (mark_finishing finishing w)
  unfolding mark_finishing
  mark_finishing_lem false w = comes w refl
  mark_finishing_lem true w = Post-any _ _ (λ _. comes _ refl)

  pub run_lem :
      (next : ℕ) (finishing : Bool) (w : System D)
      → Post
          (λ v.
            Effect w v next
              (some running)
              next
              w.scheduler.ready_list
              (if finishing then some w.current_thread else w.scheduler.to_be_destroyed))
          (run next finishing w)
  unfolding run statuses
  run_lem next finishing w = Post-any _ _ (λ _. Post-bind (mark_finishing_lem finishing w) (λ w₁ e₁.
      Post-deref (w₁.threads w.current_thread) _ (λ t _.
        Post-bind (save_state_lem w.current_thread t.space w₁) (λ w₂ s.
          Post-any (check_overflow t) _ (λ _.
            Post-weaken (after w₁ w₂ e₁ s)
              (set_status_lem next running (record w₂ { current_thread = next })))))))
    where
      after :
          (w₁ w₂ : System D)
          → w₁ ≡ record w {
            scheduler = record w.scheduler {
              to_be_destroyed =
                  if finishing then some w.current_thread else w.scheduler.to_be_destroyed;
            };
          }
          → Saved w₁ w₂
          → (v : System D)
          → Effect
              (record w₂ { current_thread = next })
              v
              next
              (some running)
              next
              w₂.scheduler.ready_list
              w₂.scheduler.to_be_destroyed
          → Effect w v next
              (some running)
              next
              w.scheduler.ready_list
              (if finishing then some w.current_thread else w.scheduler.to_be_destroyed)
      after w₁ w₂ e₁ s v f = record {
        status = λ b.
            f.status b
            ∙ ap (λ o. if next == b then some running else o)
                (s.status b ∙ ap (λ u. statuses u b) e₁);
        current_is = f.current_is;
        list_is = f.list_is ∙ ap (λ u. u.ready_list) (s.scheduler ∙ ap (λ u. u.scheduler) e₁);
        gone_is = f.gone_is ∙ ap (λ u. u.to_be_destroyed) (s.scheduler ∙ ap (λ u. u.scheduler) e₁);
        interrupts = f.interrupts ∙ s.interrupt ∙ ap (λ u. u.interrupt) e₁;
      }

  dropped :
      (w : System D) (a : ℕ)
      → Changed
          (statuses w)
          a
          none
          (statuses (record w { threads = store_thread w.threads a none }))
  unfolding statuses
  dropped w a b = dropped_at (a == b) (w.threads b)

  delete_thread_lem :
      (a : ℕ) (w : System D)
      → Post (λ v. v ≡ record w { threads = store_thread w.threads a none }) (delete_thread a w)
  unfolding delete_thread
  delete_thread_lem a w = Post-any _ _ (λ _. comes _ refl)

  pub check_to_be_destroyed_lem :
      (w : System D)
      → Post
          (λ v.
            ((w.scheduler.to_be_destroyed ≡ none) × (v ≡ w))
            ⊎ ((a : ℕ) × (w.scheduler.to_be_destroyed ≡ some a)
                × Effect w v a none w.current_thread w.scheduler.ready_list none))
          (check_to_be_destroyed w)
  unfolding check_to_be_destroyed statuses
  check_to_be_destroyed_lem w = from w.scheduler.to_be_destroyed refl
    where
      from :
          (o : Option ℕ)
          → w.scheduler.to_be_destroyed ≡ o
          → Post
              (λ v.
                ((w.scheduler.to_be_destroyed ≡ none) × (v ≡ w))
                ⊎ ((a : ℕ) × (w.scheduler.to_be_destroyed ≡ some a)
                    × Effect w v a none w.current_thread w.scheduler.ready_list none))
              (elim o [
                | none ↦ ok w
                | some thread ↦ delete_thread thread w >>= λ w₁.
                    ok (record w₁ { scheduler = record w₁.scheduler { to_be_destroyed = none } })
              ])
      from none e = comes w (inl (e, refl))
      from (some a) e = Post-bind (delete_thread_lem a w) (λ w₁ e₁. comes _ (
          inr (
            a,
            e,
            record {
              status = subst (λ u. Changed (statuses w) a none (statuses u)) (sym e₁) (dropped w a);
              current_is = ap (λ u. u.current_thread) e₁;
              list_is = ap (λ u. u.scheduler.ready_list) e₁;
              gone_is = refl;
              interrupts = ap (λ u. u.interrupt) e₁;
            },
          )))
