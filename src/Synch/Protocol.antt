-- ===== src/Synch/Protocol.antt =====
-- Threads that share one semaphore: each calls P, and V later, in any order.
use nachos_project_2_os_subj.Base.{
  ℕ, ◌+◌, ◌^◌, ◌≤◌, ◌<◌, ◌≡◌, refl, ap, arith, List, [], ◌∷◌, ◌++◌, Option, none, some, ok, sub32,
  ◌≢◌, ◌⊎◌, inl, inr, length, length-append,
}
use nachos_project_2_os_subj.Synch.{Semaphore, semaphore, Round, passed, asleep, p, v}

-- `woken` are the threads that V has made ready and that have not run again; `inside` those that
-- are past P and have not called V.
pub record System : Type 0 where
  pub sem : Semaphore
  pub woken : List ℕ
  pub inside : List ℕ

abbrev pub init : ℕ → System
init n = record { sem = semaphore n; woken = []; inside = [] }

-- After a round of P by a thread.
abbrev pub settle : System → ℕ → Round → System
settle s thread (passed sem) = record s { sem = sem; inside = thread ∷ s.inside }
settle s thread (asleep sem) = record s { sem = sem }

abbrev pub wake : List ℕ → Option ℕ → List ℕ
wake woken none = woken
wake woken (some thread) = woken ++ thread ∷ []

pub data Step (s : System) : System → Type 0 where
  call_p : (thread : ℕ) {r : Round} → p s.sem thread ≡ ok r → Step s (settle s thread r)
  run_again :
      (before after : List ℕ) (thread : ℕ) {r : Round}
      → s.woken ≡ before ++ thread ∷ after
      → p s.sem thread ≡ ok r
      → Step s (settle (record s { woken = before ++ after }) thread r)
  call_v :
      (before after : List ℕ) (thread : ℕ)
      → s.inside ≡ before ++ thread ∷ after
      → Step s
          (record { sem = (v s.sem).0; woken = wake s.woken (v s.sem).1; inside = before ++ after })

pub data Reach (n : ℕ) : System → Type 0 where
  start : Reach n (init n)
  next : {s t : System} → Reach n s → Step s t → Reach n t

-- The value and the threads inside add up to the initial value; and while a thread sleeps, each
-- unit of the value is matched by a thread that has been woken for it.
pub record Inv (n : ℕ) (s : System) : Type 0 where
  pub balance : s.sem.value + length s.inside ≡ n
  pub matched : (s.sem.queue ≡ []) ⊎ (s.sem.value ≤ length s.woken)

p_cases :
    (s : Semaphore) (thread : ℕ) {r : Round}
    → p s thread ≡ ok r
    → ((s.value ≡ 0) × (r ≡ asleep (record s { queue = s.queue ++ thread ∷ [] })))
      ⊎ ((0 < s.value) × (r ≡ passed (record s { value = sub32 s.value 1 })))
unfolding p
p_cases s thread e = ground arith

-- A round of P, with room for one unit of the value that no woken thread matches any more.
settle-Inv :
    (n : ℕ) (s : System) (thread : ℕ) (r : Round)
    → n < 2 ^ 32
    → s.sem.value + length s.inside ≡ n
    → (s.sem.queue ≡ []) ⊎ (s.sem.value ≤ length s.woken + 1)
    → p s.sem thread ≡ ok r
    → Inv n (settle s thread r)
settle-Inv n s thread r small bal m e = elim (p_cases s.sem thread e) [
  | inl (z, q) ↦ rw q (record { balance = bal; matched = inr (omega arith) })
  | inr (pos, q) ↦ rw q (record { balance = omega arith; matched = ground arith })
]

length-split :
    (xs before after : List ℕ) (x : ℕ)
    → xs ≡ before ++ x ∷ after
    → length xs ≡ length (before ++ after) + 1
length-split xs before after x e =
    omega (arith, ap length e, length-append before (x ∷ after), length-append before after)

v-Inv :
    (n : ℕ) (s : System) (inside : List ℕ)
    → n < 2 ^ 32
    → length s.inside ≡ length inside + 1
    → Inv n s
    → Inv n (record { sem = (v s.sem).0; woken = wake s.woken (v s.sem).1; inside = inside })
unfolding v
v-Inv n s inside small e inv = v_queue s.sem.queue refl
  where
    v_queue :
        (q : List ℕ)
        → s.sem.queue ≡ q
        → Inv n (record { sem = (v s.sem).0; woken = wake s.woken (v s.sem).1; inside = inside })
    v_queue [] f = rw (f, v) (record { balance = omega (arith, inv.balance); matched = inl f })
    v_queue (t ∷ ts) f =
        rw (f, v)
          (record {
            balance = omega (arith, inv.balance);
            matched =
                inr (ground (arith, inv.matched, inv.balance, length-append s.woken (t ∷ [])));
          })

pub Step-Inv : {n : ℕ} {s t : System} → n < 2 ^ 32 → Step s t → Inv n s → Inv n t
Step-Inv {n} {s} small (call_p thread {r} e) inv =
    settle-Inv n s thread r small inv.balance (ground (arith, inv.matched)) e
Step-Inv {n} {s} small (run_again before after thread {r} w e) inv =
    settle-Inv n (record s { woken = before ++ after }) thread r small inv.balance
      (ground (arith, inv.matched, length-split s.woken before after thread w)) e
Step-Inv {n} {s} small (call_v before after thread i) inv =
    v-Inv n s (before ++ after) small (length-split s.inside before after thread i) inv

-- However threads interleave their calls of P and V on a semaphore, each calling V only when it is
-- past P, its value and the threads past P add up to the initial value, and while a thread sleeps
-- the value is no more than the number of threads woken and not yet run.
pub Reach-Inv : {n : ℕ} {s : System} → n < 2 ^ 32 → Reach n s → Inv n s
Reach-Inv small start = record { balance = omega arith; matched = inl refl }
Reach-Inv small (next r st) = Step-Inv small st (Reach-Inv small r)

-- With initial value 1, no two threads are past P together.
pub mutual_exclusion :
    {s : System} → Reach 1 s → (a b : ℕ) (rest : List ℕ) → s.inside ≢ a ∷ b ∷ rest
mutual_exclusion r a b rest e = omega (arith, (Reach-Inv (omega arith) r).balance, ap length e)
