-- ===== src/Synch/Locks.antt =====
-- Locks: the holder and the semaphore of a lock go together.
use nachos_project_2_os_subj.Base.{
  ℕ, ◌≡◌, ◌≢◌, ◌∙◌, refl, arith, false, Bool-cases, List, [], ◌∷◌, ◌++◌, none, some, ok, err,
  assert_failed, ◌⊎◌, inl, inr, ◌==◌,
}
use nachos_project_2_os_subj.Synch.{
  Semaphore, passed, asleep, p, v, Lock, acquire, acquired, waits, is_held_by, release, is_in_list,
}

-- A lock that is free, or held.
abbrev pub IsLock : Lock → Type 0
IsLock l =
    ((l.lock_holder ≡ none) × (l.semaphore.value ≡ 1))
    ⊎ ((holder : ℕ) × (l.lock_holder ≡ some holder) × (l.semaphore.value ≡ 0))

p_free :
    (s : Semaphore) (thread : ℕ) → s.value ≡ 1 → p s thread ≡ ok (passed (record s { value = 0 }))
unfolding p
p_free s thread e = ground arith

p_busy :
    (s : Semaphore) (thread : ℕ)
    → s.value ≡ 0
    → is_in_list thread s.queue ≡ false
    → p s thread ≡ ok (asleep (record s { queue = s.queue ++ thread ∷ [] }))
unfolding p
p_busy s thread e i = ground arith

v-value : (s : Semaphore) → s.value ≡ 0 → (v s).0.value ≡ 1
unfolding v
v-value s e = by_queue s.queue refl
  where
    by_queue : (q : List ℕ) → s.queue ≡ q → (v s).0.value ≡ 1
    by_queue [] f = rw (f, v) (ground arith)
    by_queue (x ∷ xs) f = rw (f, v) (ground arith)

-- Acquire of a consistent lock by a thread that is not in its queue: a free lock is held by the
-- thread afterwards, and at a held lock the thread sleeps at the end of the queue; the lock stays
-- consistent.
pub acquire_cases :
    (l : Lock) (thread : ℕ)
    → IsLock l
    → is_in_list thread l.semaphore.queue ≡ false
    → ((l.lock_holder ≡ none)
        × (l' : Lock) × (acquire l thread ≡ ok (acquired l'))
        × (l'.lock_holder ≡ some thread)
        × IsLock l')
      ⊎ ((holder : ℕ) × (l.lock_holder ≡ some holder)
          × (l' : Lock) × (acquire l thread ≡ ok (waits l'))
          × (l'.semaphore.queue ≡ l.semaphore.queue ++ thread ∷ [])
          × (l'.lock_holder ≡ some holder)
          × IsLock l')
unfolding acquire
acquire_cases l thread (inl (h, e)) i = inl (
  h,
  record { semaphore = record (l.semaphore) { value = 0 }; lock_holder = some thread },
  rw (p_free l.semaphore thread e) refl,
  refl,
  inr (thread, refl, refl),
)
acquire_cases l thread (inr (holder, h, e)) i = inr (
  holder,
  h,
  record l { semaphore = record (l.semaphore) { queue = l.semaphore.queue ++ thread ∷ [] } },
  rw (p_busy l.semaphore thread e i) refl,
  refl,
  h,
  inr (holder, h, e),
)

-- Release of a consistent lock: by the holder it frees the lock, makes ready the thread that V
-- wakes, and keeps the lock consistent; by any other thread it fails the assertion.
pub release_cases :
    (l : Lock) (thread : ℕ)
    → IsLock l
    → ((l.lock_holder ≡ some thread)
        × (l' : Lock) × (release l thread ≡ ok (l', (v l.semaphore).1))
        × (l'.lock_holder ≡ none)
        × IsLock l')
      ⊎ ((l.lock_holder ≢ some thread) × (release l thread ≡ err assert_failed))
unfolding release is_held_by
release_cases l thread (inl (h, e)) = inr ((λ q. cc (h, q)), rw h refl)
release_cases l thread (inr (holder, h, e)) = elim (Bool-cases (holder == thread)) [
  | inl same ↦ inl (
    h ∙ ground arith,
    record { semaphore = (v l.semaphore).0; lock_holder = none },
    rw (h, same) refl,
    refl,
    inl (refl, v-value l.semaphore e),
  )
  | inr other ↦ inr ((λ q. ground (arith, h)), rw (h, other) refl)
]
