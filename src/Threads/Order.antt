-- ===== src/Threads/Order.antt =====
-- The list of pending interrupts is in order of time, and interrupts of the same time are in the order
-- in which they were scheduled.
use nachos_project_2_os_subj.Base.{
  ℕ, ◌+◌, ◌^◌, ◌≤◌, ◌<◌, ◌≡◌, refl, ap, arith, false, Bool-cases, inl, inr, List, [], ◌∷◌, ◌++◌, ok,
  ltb, leb, slt, if◌then◌else◌,
}
use nachos_project_2_os_subj.Threads.{PendingInterrupt, IntType, System}
use nachos_project_2_os_subj.Threads.Interrupts.{
  pending_compare, insert, is_due, schedule, set_pending,
}

pub comes_before : (x y : PendingInterrupt) → slt (pending_compare x y) 0 ≡ ltb x.when y.when
comes_before x y = ground arith

module _ (P : PendingInterrupt → Type 0) where
  abbrev pub All : List PendingInterrupt → Type 0
  All [] = Unit
  All (x ∷ xs) = P x × All xs

pub All-weaken :
    {P Q : PendingInterrupt → Type 0} (xs : List PendingInterrupt)
    → ((x : PendingInterrupt) → P x → Q x)
    → All P xs
    → All Q xs
All-weaken [] f h = tt
All-weaken (x ∷ xs) f h = (f x h.0, All-weaken xs f h.1)

-- Each no later than all after it.
abbrev pub IsOrdered : List PendingInterrupt → Type 0
IsOrdered [] = Unit
IsOrdered (x ∷ xs) = All (λ y. x.when ≤ y.when) xs × IsOrdered xs

-- The interrupts at the front of the list whose time has come.
unfoldable pub due : ℕ → List PendingInterrupt → List PendingInterrupt
due now [] = []
due now (x ∷ xs) = if leb x.when now then x ∷ due now xs else []

-- The list with the item put where it belongs.
abbrev pub Inserted : PendingInterrupt → List PendingInterrupt → Type 0
Inserted item xs =
    (before : List PendingInterrupt) × (after : List PendingInterrupt) × (xs ≡ before ++ after)
    × (insert item xs ≡ before ++ item ∷ after)
    × All (λ x. x.when ≤ item.when) before
    × All (λ x. item.when < x.when) after

-- Insert into a list of pending interrupts in order of time puts the new one after those that are
-- no later and before those that are later, and leaves the others in their order.
pub insert_lem :
    (item : PendingInterrupt) (xs : List PendingInterrupt) → IsOrdered xs → Inserted item xs
unfolding insert
insert_lem item [] o = ([], [], refl, refl, tt, tt)
insert_lem item (x ∷ xs) o = elim (Bool-cases (ltb item.when x.when)) [
  | inl first ↦ (
    [],
    x ∷ xs,
    refl,
    rw (comes_before item x, first) refl,
    tt,
    (ground arith, All-weaken xs (λ y h. ground arith) o.0),
  )
  | inr later ↦
      let (before, after, e, i, b, a) = insert_lem item xs o.1 in
      (
        x ∷ before,
        after,
        ap (◌∷◌ x) e,
        rw (comes_before item x, later) (ap (◌∷◌ x) i),
        (ground arith, b),
        a,
      )
]

All-insert :
    (P : PendingInterrupt → Type 0) (item : PendingInterrupt) (xs : List PendingInterrupt)
    → P item
    → All P xs
    → All P (insert item xs)
unfolding insert
All-insert P item [] p h = (p, tt)
All-insert P item (x ∷ xs) p h = elim (Bool-cases (slt (pending_compare item x) 0)) [
  | inl first ↦ rw first (p, h)
  | inr later ↦ rw later (h.0, All-insert P item xs p h.1)
]

pub insert-IsOrdered :
    (item : PendingInterrupt) (xs : List PendingInterrupt)
    → IsOrdered xs
    → IsOrdered (insert item xs)
unfolding insert
insert-IsOrdered item [] o = (tt, tt)
insert-IsOrdered item (x ∷ xs) o = elim (Bool-cases (ltb item.when x.when)) [
  | inl first ↦
      rw (comes_before item x, first) ((ground arith, All-weaken xs (λ y h. ground arith) o.0), o)
  | inr later ↦
      rw (comes_before item x, later)
        (All-insert _ item xs (ground arith) o.0, insert-IsOrdered item xs o.1)
]

-- What is inserted later than now is not due, and hides nothing that is.
pub due-insert :
    (now : ℕ) (item : PendingInterrupt) (xs : List PendingInterrupt)
    → now < item.when
    → due now (insert item xs) ≡ due now xs
unfolding due insert
due-insert now item [] h = ground arith
due-insert now item (x ∷ xs) h = elim (Bool-cases (ltb item.when x.when)) [
  | inl first ↦ rw (comes_before item x, first) (ground arith)
  | inr later ↦ rw (comes_before item x, later, due-insert now item xs h) refl
]

pub none_due : (now : ℕ) (xs : List PendingInterrupt) → is_due xs now ≡ false → due now xs ≡ []
unfolding due is_due
none_due now [] h = refl
none_due now (x ∷ xs) h = rw h refl

pub is_due_of : (now : ℕ) (xs : List PendingInterrupt) → due now xs ≡ [] → is_due xs now ≡ false
unfolding due is_due
is_due_of now [] h = refl
is_due_of now (x ∷ xs) h = elim (Bool-cases (leb x.when now)) [
  | inl soon ↦ let e : x ∷ due now xs ≡ [] = rw soon at h in cc
  | inr later ↦ later
]

-- In order, what is not due is later.
pub All-later :
    (now : ℕ) (xs : List PendingInterrupt)
    → IsOrdered xs
    → due now xs ≡ []
    → All (λ x. now < x.when) xs
unfolding is_due
All-later now [] o h = tt
All-later now (x ∷ xs) o h =
    let no = is_due_of now (x ∷ xs) h in (ground arith, All-weaken xs (λ y k. ground arith) o.0)

module _ {D : Type 0} where
  -- Schedule that returns has put a call into the list that is later than now.
  pub schedule_cases :
      (to_call from_now : ℕ) (type : IntType) (w v : System D)
      → schedule to_call from_now type w ≡ ok v
      → (when : ℕ) × (when ≡ w.stats.total_ticks + from_now)
        × (w.stats.total_ticks < when)
        × (when < 2 ^ 31)
        × (v
            ≡ set_pending
                (insert
                  (record { call_on_interrupt = to_call; when = when; type = type })
                  w.interrupt.pending)
                w)
  unfolding schedule
  schedule_cases to_call from_now type w v e =
      (w.stats.total_ticks + from_now, refl, ground arith, ground arith, ground arith)
