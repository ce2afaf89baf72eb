-- ===== src/Threads/Invariant.antt =====
-- The ready list against the status of the threads, as each operation of the scheduler changes them.
use nachos_project_2_os_subj.Base.{
  ℕ, ◌≡◌, ◌≢◌, ◌∙◌, refl, ap, sym, arith, ◌==◌, true, false, ◌||◌, Bool-cases, ◌⊎◌, inl, inr, List,
  [], ◌∷◌, ◌++◌, Option, none, some, if◌then◌else◌,
}
use nachos_project_2_os_subj.Synch.{is_in_list}
use nachos_project_2_os_subj.Lists.Chains.{some-injective}
use nachos_project_2_os_subj.Lists.Reps.{none-some}
use nachos_project_2_os_subj.Threads.{ThreadStatus, just_created, running, ready, blocked}

pub is_in_list-append :
    (a : ℕ) (xs : List ℕ) (b : ℕ) → is_in_list a (xs ++ b ∷ []) ≡ (is_in_list a xs || a == b)
unfolding is_in_list
is_in_list-append a [] b = ground arith
is_in_list-append a (x ∷ xs) b = elim (Bool-cases (a == x)) [
  | inl same ↦ rw same refl
  | inr other ↦ rw other (is_in_list-append a xs b)
]

abbrev pub IsDistinct : List ℕ → Type 0
IsDistinct [] = Unit
IsDistinct (x ∷ xs) = (is_in_list x xs ≡ false) × IsDistinct xs

IsDistinct-append :
    (xs : List ℕ) (a : ℕ) → is_in_list a xs ≡ false → IsDistinct xs → IsDistinct (xs ++ a ∷ [])
unfolding is_in_list
IsDistinct-append [] a h d = (refl, tt)
IsDistinct-append (x ∷ xs) a h d =
    (rw (is_in_list-append x xs a, d.0) (ground arith), IsDistinct-append xs a (ground arith) d.1)

-- The status of the thread at each address at which one lies.
abbrev pub Statuses : Type 0
Statuses = ℕ → Option ThreadStatus

-- Only `a` has changed its status.
abbrev pub Changed : Statuses → ℕ → Option ThreadStatus → Statuses → Type 0
Changed st a x st' = (b : ℕ) → st' b ≡ (if a == b then x else st b)

-- The ready list holds the threads that are READY, each once; `runs` is the one that is RUNNING; and
-- the thread to be destroyed is BLOCKED.
pub record Sched (st : Statuses) (ready_list : List ℕ) (runs to_be_destroyed : Option ℕ)
    : Type 0 where
  pub listed : (a : ℕ) → is_in_list a ready_list ≡ true → st a ≡ some ready
  pub counted : (a : ℕ) → st a ≡ some ready → is_in_list a ready_list ≡ true
  pub alone : (a : ℕ) → st a ≡ some running → runs ≡ some a
  pub runs_running : (a : ℕ) → runs ≡ some a → st a ≡ some running
  pub ended : (a : ℕ) → to_be_destroyed ≡ some a → st a ≡ some blocked
  pub distinct : IsDistinct ready_list

-- One split of every claim about a change: at the address, or elsewhere.
pub Changed-at :
    (st st' : Statuses) (a : ℕ) (x : Option ThreadStatus)
    → Changed st a x st'
    → (b : ℕ) → ((a ≡ b) × (st' b ≡ x)) ⊎ ((a ≢ b) × (st' b ≡ st b))
Changed-at st st' a x h b = elim (Bool-cases (a == b)) [
  | inl same ↦ inl (ground arith, h b ∙ rw same refl)
  | inr other ↦ inr (λ e. ground arith, h b ∙ rw other refl)
]

pub not_listed :
    {st : Statuses} {l : List ℕ} {runs doomed : Option ℕ} {a : ℕ} {s : ThreadStatus}
    → Sched st l runs doomed
    → st a ≡ some s
    → s ≢ ready
    → is_in_list a l ≡ false
not_listed {l = l} {a = a} w e n = elim (Bool-cases (is_in_list a l)) [
  | inl there ↦ absurd (n (some-injective (sym e ∙ w.listed a there)))
  | inr absent ↦ absent
]

-- A thread that is neither READY nor RUNNING, nor to be destroyed, is made ready.
pub Sched-ready :
    (st st' : Statuses) (l : List ℕ) (runs doomed : Option ℕ) (a : ℕ) (s : ThreadStatus)
    → Sched st l runs doomed
    → st a ≡ some s
    → s ≢ ready
    → s ≢ running
    → doomed ≢ some a
    → Changed st a (some ready) st'
    → Sched st' (l ++ a ∷ []) runs doomed
Sched-ready st st' l runs doomed a s w e nr nn ng h =
    let absent : is_in_list a l ≡ false = not_listed w e nr in
    record {
      listed = λ b k. elim (Changed-at st st' a _ h b) [
        | inl (_, q) ↦ q
        | inr (ne, q) ↦ q ∙ w.listed b (ground (arith, is_in_list-append b l a, k))
      ];
      counted = λ b k. elim (Changed-at st st' a _ h b) [
        | inl (same, q) ↦ rw (is_in_list-append b l a) (ground arith)
        | inr (ne, q) ↦ rw (is_in_list-append b l a, w.counted b (sym q ∙ k)) refl
      ];
      alone = λ b k. elim (Changed-at st st' a _ h b) [
        | inl (same, q) ↦ cc
        | inr (ne, q) ↦ w.alone b (sym q ∙ k)
      ];
      runs_running = λ b k. elim (Changed-at st st' a _ h b) [
        | inl (same, q) ↦ absurd (nn (some-injective (sym e ∙ ap st same ∙ w.runs_running b k)))
        | inr (ne, q) ↦ q ∙ w.runs_running b k
      ];
      ended = λ b k. elim (Changed-at st st' a _ h b) [
        | inl (same, q) ↦ absurd (ng (k ∙ ap some (sym same)))
        | inr (ne, q) ↦ q ∙ w.ended b k
      ];
      distinct = IsDistinct-append l a absent w.distinct;
    }

-- The running thread stops, with another status than RUNNING and READY.
pub Sched-stop :
    (st st' : Statuses) (l : List ℕ) (doomed : Option ℕ) (a : ℕ)
    → Sched st l (some a) doomed
    → Changed st a (some blocked) st'
    → Sched st' l none doomed
Sched-stop st st' l doomed a w h =
    let was = w.runs_running a refl in
    record {
      listed = λ b k. elim (Changed-at st st' a _ h b) [
        | inl (same, q) ↦ let z = w.listed b k in cc
        | inr (ne, q) ↦ q ∙ w.listed b k
      ];
      counted = λ b k. elim (Changed-at st st' a _ h b) [
        | inl (same, q) ↦ cc
        | inr (ne, q) ↦ w.counted b (sym q ∙ k)
      ];
      alone = λ b k. elim (Changed-at st st' a _ h b) [
        | inl (same, q) ↦ cc
        | inr (ne, q) ↦ absurd (ne (some-injective (w.alone b (sym q ∙ k))))
      ];
      runs_running = λ b k. absurd (none-some k);
      ended = λ b k. elim (Changed-at st st' a _ h b) [
        | inl (same, q) ↦ q
        | inr (ne, q) ↦ q ∙ w.ended b k
      ];
      distinct = w.distinct;
    }

-- The first ready thread runs, where none does.
pub Sched-run :
    (st st' : Statuses) (l : List ℕ) (doomed : Option ℕ) (a : ℕ)
    → Sched st (a ∷ l) none doomed
    → Changed st a (some running) st'
    → Sched st' l (some a) doomed
unfolding is_in_list
Sched-run st st' l doomed a w h =
    let was : st a ≡ some ready = w.listed a (ground arith) in
    record {
      listed = λ b k. elim (Changed-at st st' a _ h b) [
        | inl (same, q) ↦ let z = w.distinct.0 in cc
        | inr (ne, q) ↦ q ∙ w.listed b (ground (arith, k))
      ];
      counted = λ b k. elim (Changed-at st st' a _ h b) [
        | inl (same, q) ↦ cc
        | inr (ne, q) ↦ ground (arith, w.counted b (sym q ∙ k))
      ];
      alone = λ b k. elim (Changed-at st st' a _ h b) [
        | inl (same, q) ↦ ap some same
        | inr (ne, q) ↦ absurd (none-some (w.alone b (sym q ∙ k)))
      ];
      runs_running = λ b k. elim (Changed-at st st' a _ h b) [
        | inl (same, q) ↦ q
        | inr (ne, q) ↦ absurd (ne (some-injective k))
      ];
      ended = λ b k. elim (Changed-at st st' a _ h b) [
        | inl (same, q) ↦ let z = w.ended b k in cc
        | inr (ne, q) ↦ q ∙ w.ended b k
      ];
      distinct = w.distinct.1;
    }

-- The running thread goes to the end of the ready list.
pub Sched-requeue :
    (st st' : Statuses) (l : List ℕ) (doomed : Option ℕ) (a : ℕ)
    → Sched st l (some a) doomed
    → Changed st a (some ready) st'
    → Sched st' (l ++ a ∷ []) none doomed
Sched-requeue st st' l doomed a w h =
    let was = w.runs_running a refl in
    let absent : is_in_list a l ≡ false = not_listed w was (λ q. cc) in
    record {
      listed = λ b k. elim (Changed-at st st' a _ h b) [
        | inl (_, q) ↦ q
        | inr (ne, q) ↦ q ∙ w.listed b (ground (arith, is_in_list-append b l a, k))
      ];
      counted = λ b k. elim (Changed-at st st' a _ h b) [
        | inl (same, q) ↦ rw (is_in_list-append b l a) (ground arith)
        | inr (ne, q) ↦ rw (is_in_list-append b l a, w.counted b (sym q ∙ k)) refl
      ];
      alone = λ b k. elim (Changed-at st st' a _ h b) [
        | inl (same, q) ↦ cc
        | inr (ne, q) ↦ absurd (ne (some-injective (w.alone b (sym q ∙ k))))
      ];
      runs_running = λ b k. absurd (none-some k);
      ended = λ b k. elim (Changed-at st st' a _ h b) [
        | inl (same, q) ↦ let z = w.ended b k in cc
        | inr (ne, q) ↦ q ∙ w.ended b k
      ];
      distinct = IsDistinct-append l a absent w.distinct;
    }

-- The thread to be destroyed is deleted.
pub Sched-delete :
    (st st' : Statuses) (l : List ℕ) (runs : Option ℕ) (a : ℕ)
    → Sched st l runs (some a)
    → Changed st a none st'
    → Sched st' l runs none
Sched-delete st st' l runs a w h =
    let was = w.ended a refl in
    record {
      listed = λ b k. elim (Changed-at st st' a _ h b) [
        | inl (same, q) ↦ let z = w.listed b k in cc
        | inr (ne, q) ↦ q ∙ w.listed b k
      ];
      counted = λ b k. elim (Changed-at st st' a _ h b) [
        | inl (same, q) ↦ cc
        | inr (ne, q) ↦ w.counted b (sym q ∙ k)
      ];
      alone = λ b k. elim (Changed-at st st' a _ h b) [
        | inl (same, q) ↦ cc
        | inr (ne, q) ↦ w.alone b (sym q ∙ k)
      ];
      runs_running = λ b k. elim (Changed-at st st' a _ h b) [
        | inl (same, q) ↦ let z = w.runs_running b k in cc
        | inr (ne, q) ↦ q ∙ w.runs_running b k
      ];
      ended = λ b k. absurd (none-some k);
      distinct = w.distinct;
    }

-- A new thread.
pub Sched-create :
    (st st' : Statuses) (l : List ℕ) (runs doomed : Option ℕ) (a : ℕ)
    → Sched st l runs doomed
    → st a ≡ none
    → Changed st a (some just_created) st'
    → Sched st' l runs doomed
Sched-create st st' l runs doomed a w free h = record {
  listed = λ b k. elim (Changed-at st st' a _ h b) [
    | inl (same, q) ↦ let z = w.listed b k in cc
    | inr (ne, q) ↦ q ∙ w.listed b k
  ];
  counted = λ b k. elim (Changed-at st st' a _ h b) [
    | inl (same, q) ↦ cc
    | inr (ne, q) ↦ w.counted b (sym q ∙ k)
  ];
  alone = λ b k. elim (Changed-at st st' a _ h b) [
    | inl (same, q) ↦ cc
    | inr (ne, q) ↦ w.alone b (sym q ∙ k)
  ];
  runs_running = λ b k. elim (Changed-at st st' a _ h b) [
    | inl (same, q) ↦ let z = w.runs_running b k in cc
    | inr (ne, q) ↦ q ∙ w.runs_running b k
  ];
  ended = λ b k. elim (Changed-at st st' a _ h b) [
    | inl (same, q) ↦ let z = w.ended b k in cc
    | inr (ne, q) ↦ q ∙ w.ended b k
  ];
  distinct = w.distinct;
}
