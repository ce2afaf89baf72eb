-- ===== src/STable/Calls.antt =====
-- Create, Wait and Signal on the map from names to semaphores.
use nachos_project_2_os_subj.Base.{
  ℕ, ◌+◌, ◌<◌, ◌≡◌, ◌∙◌, refl, ap, arith, Bool-cases, true, false, [], ◌∷◌, none, some, ok, ◌++◌,
  err, assert_failed, sub32, ◌⊎◌, inl, inr, ◌≢◌, if◌then◌else◌, lt→ltb, get_elem?, set, length,
  length-set, minus_one, slt,
}
use nachos_project_2_os_subj.Synch.{Semaphore, semaphore, passed, asleep, p, v, is_in_list}
use nachos_project_2_os_subj.STable.{
  CString, same_string, Sem, new_sem, name_size, max_semaphore, STable, find_name, find_free,
  find_free_slot, slot_at, create, returned, sleeps, wait, signal,
}
use nachos_project_2_os_subj.STable.Names.{
  lookup, find_name_lem, find_free_lem, lookup-set_free, lookup-set_same,
}

-- The table t' has the semaphore q under the name, and what t has under every other.
pub Renewed : STable → CString → Semaphore → STable → Type 0
Renewed t name q t' =
    (length t' ≡ length t)
    × ((other : CString)
        → lookup t' other ≡ (if same_string name other then some q else lookup t other))

module _ (t : STable) (name : CString) (initial : ℕ) (n : length t ≡ max_semaphore)
    (short : length name < name_size) where
  new_sem_short : new_sem name initial ≡ ok (record { name = name; sem = semaphore initial })
  unfolding new_sem
  new_sem_short = rw (lt→ltb (length name) name_size short)

  create_taken : (k : ℕ) → find_name t name 0 ≡ some k → create t name initial ≡ ok (t, minus_one)
  unfolding create
  create_taken k e = rw (e, create) refl

  create_full :
      find_name t name 0 ≡ none
      → find_free t 0 ≡ minus_one
      → create t name initial ≡ ok (t, minus_one)
  unfolding create find_free_slot
  create_full e f = rw (e, create, f) refl

  create_free :
      (k : ℕ)
      → find_name t name 0 ≡ none
      → find_free t 0 ≡ k
      → k < length t
      → create t name initial
        ≡ ok (set t k (some (record { name = name; sem = semaphore initial })), 0)
  unfolding create find_free_slot
  create_free k e f l =
      let small : slt k 0 ≡ false = ground arith in rw (e, create, f, small, new_sem_short) refl

  -- Create of a name that fits, on a table of ten slots: -1 and no change where the name is taken
  -- or no slot is free; otherwise 0, and then the name stands for a new semaphore of the given
  -- value and every other name for what it stood for.
  pub lookup-create :
      ((lookup t name ≢ none) × (create t name initial ≡ ok (t, minus_one)))
      ⊎ ((((k : ℕ) → k < max_semaphore → get_elem? t k ≢ some none)
            × (create t name initial ≡ ok (t, minus_one)))
          ⊎ ((lookup t name ≡ none)
              × (t' : STable) × (create t name initial ≡ ok (t', 0))
              × Renewed t name (semaphore initial) t'))
  unfolding Renewed
  lookup-create = elim (find_name_lem t name 0) [
    | inr (k, s, e, l, g, b, same) ↦ inl ((λ q. cc (b, q)), create_taken (0 + k) e)
    | inl (e, b) ↦ elim (find_free_lem t 0) [
      | inl (f, all) ↦ inr (inl ((λ k l. all k (omega arith)), create_full e f))
      | inr (k, f, l, g) ↦ inr (
          inr (
            b,
            set t k (some (record { name = name; sem = semaphore initial })),
            create_free k e (f ∙ omega arith) l,
            (
              length-set t k (some (record { name = name; sem = semaphore initial })),
              λ other.
                  lookup-set_free t k (record { name = name; sem = semaphore initial }) other g b,
            ),
          ))
    ]
  ]

-- A semaphore changed in place, under the name that found it.
lookup-set_named :
    (t : STable) (k : ℕ) (s : Sem) (q : Semaphore) (name other : CString)
    → get_elem? t k ≡ some (some s)
    → find_name t name 0 ≡ some (0 + k)
    → s.name ≡ name
    → lookup (set t k (some (record s { sem = q }))) other
      ≡ (if same_string name other then some q else lookup t other)
lookup-set_named t k s q name other g e same =
    ground (arith, lookup-set_same t k 0 s q other g (rw same e), same)

set-Renewed :
    (t : STable) (k : ℕ) (s : Sem) (q : Semaphore) (name : CString)
    → get_elem? t k ≡ some (some s)
    → find_name t name 0 ≡ some (0 + k)
    → s.name ≡ name
    → Renewed t name q (set t k (some (record s { sem = q })))
unfolding Renewed
set-Renewed t k s q name g e same = (
  length-set t k (some (record s { sem = q })),
  λ other. lookup-set_named t k s q name other g e same,
)

-- Signal: -1 and no change where the name stands for no semaphore; otherwise 0, the semaphore
-- becomes what V makes of it, the thread that V wakes is made ready, and no other name is touched.
pub lookup-signal :
    (t : STable) (name : CString)
    → ((lookup t name ≡ none) × (signal t name ≡ ok (t, minus_one, none)))
      ⊎ ((s : Semaphore) × (lookup t name ≡ some s)
          × (t' : STable) × (signal t name ≡ ok (t', 0, (v s).1))
          × Renewed t name (v s).0 t')
unfolding signal slot_at
lookup-signal t name = elim (find_name_lem t name 0) [
  | inl (e, b) ↦ inl (b, rw (e, signal))
  | inr (k, s, e, l, g, b, same) ↦
      let e' : find_name t name 0 ≡ some k = e ∙ ap some (omega arith) in
      inr (
        s.sem,
        b,
        set t k (some (record s { sem = (v s.sem).0 })),
        rw (e', signal, g) refl,
        set-Renewed t k s (v s.sem).0 name g e same,
      )
]

-- P at value 0, by a thread that is in the queue and by one that is not, and P above 0.
p_cases :
    (s : Semaphore) (thread : ℕ)
    → ((s.value ≡ 0) × (is_in_list thread s.queue ≡ true) × (p s thread ≡ err assert_failed))
      ⊎ (((s.value ≡ 0) × (p s thread ≡ ok (asleep (record s { queue = s.queue ++ thread ∷ [] }))))
          ⊎ ((s.value ≢ 0) × (p s thread ≡ ok (passed (record s { value = sub32 s.value 1 })))))
unfolding p
p_cases s thread = elim (Bool-cases (is_in_list thread s.queue)) [
  | inl e ↦ ground arith
  | inr e ↦ ground arith
]

module _ (t : STable) (name : CString) (thread k : ℕ) (s : Sem) (e : find_name t name 0 ≡ some k)
    (g : get_elem? t k ≡ some (some s)) where
  wait_passed :
      (q : Semaphore)
      → p s.sem thread ≡ ok (passed q)
      → wait t name thread ≡ ok (returned (set t k (some (record s { sem = q }))) 0)
  unfolding wait slot_at
  wait_passed q pr = rw (e, wait, g, pr) refl

  wait_asleep :
      (q : Semaphore)
      → p s.sem thread ≡ ok (asleep q)
      → wait t name thread ≡ ok (sleeps (set t k (some (record s { sem = q }))))
  unfolding wait slot_at
  wait_asleep q pr = rw (e, wait, g, pr) refl

  wait_fails : p s.sem thread ≡ err assert_failed → wait t name thread ≡ err assert_failed
  unfolding wait slot_at
  wait_fails pr = rw (e, wait, g, pr) refl

-- Wait: -1 and no change where the name stands for no semaphore; at value 0 the thread sleeps at
-- the end of the queue, or fails the assertion of Append where it is in the queue already; above 0
-- the answer is 0 and the value one less; no other name is touched.
pub lookup-wait :
    (t : STable) (name : CString) (thread : ℕ)
    → ((lookup t name ≡ none) × (wait t name thread ≡ ok (returned t minus_one)))
      ⊎ ((s : Semaphore) × (lookup t name ≡ some s)
          × (((s.value ≡ 0)
                × (is_in_list thread s.queue ≡ true)
                × (wait t name thread ≡ err assert_failed))
              ⊎ (((s.value ≡ 0)
                    × (t' : STable) × (wait t name thread ≡ ok (sleeps t'))
                    × Renewed t name (record s { queue = s.queue ++ thread ∷ [] }) t')
                  ⊎ ((s.value ≢ 0)
                      × (t' : STable) × (wait t name thread ≡ ok (returned t' 0))
                      × Renewed t name (record s { value = sub32 s.value 1 }) t'))))
unfolding wait
lookup-wait t name thread = elim (find_name_lem t name 0) [
  | inl (e, b) ↦ inl (b, rw (e, wait))
  | inr (k, s, e, l, g, b, same) ↦
      let e' : find_name t name 0 ≡ some k = e ∙ ap some (omega arith) in
      inr (
        s.sem,
        b,
        elim (p_cases s.sem thread) [
          | inl (z, i, pr) ↦ inl (z, i, wait_fails t name thread k s e' g pr)
          | inr (inl (z, pr)) ↦ inr (
              inl (
                z,
                set t k
                    (some (record s { sem = record s.sem { queue = s.sem.queue ++ thread ∷ [] } })),
                wait_asleep t name thread k s e' g
                    (record s.sem { queue = s.sem.queue ++ thread ∷ [] }) pr,
                set-Renewed t k s (record s.sem { queue = s.sem.queue ++ thread ∷ [] }) name g e
                    same,
              ))
          | inr (inr (nz, pr)) ↦ inr (
              inr (
                nz,
                set t k (some (record s { sem = record s.sem { value = sub32 s.sem.value 1 } })),
                wait_passed t name thread k s e' g (record s.sem { value = sub32 s.sem.value 1 })
                    pr,
                set-Renewed t k s (record s.sem { value = sub32 s.sem.value 1 }) name g e same,
              ))
        ],
      )
]
