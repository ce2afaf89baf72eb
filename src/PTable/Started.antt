-- ===== src/PTable/Started.antt =====
-- ExecUpdate and ExecV make a child of the process that calls them.
use mathlib.Core.Path.{subst}
use nachos_project_2_os_subj.Base.{
  ℕ, zero, suc, ◌+◌, ◌<◌, ◌≡◌, ◌≢◌, ◌∙◌, refl, sym, ap, ℕ_discrete, arith, true, false, Bool-cases,
  List, [], ◌∷◌, Option, none, some, Result, ok, ◌⊎◌, inl, inr, get_elem?, length, length-set,
  get_elem?-set_self, slt, minus_one, lt→ltb,
}
use nachos_project_2_os_subj.Synch.{Semaphore, semaphore, p, v}
use nachos_project_2_os_subj.STable.{CString, same_string}
use nachos_project_2_os_subj.PTable.{
  Pcb, PTable, put, max_process, filename_size, free_slot_from, get_free_slot, new_pcb, enter,
}
use nachos_project_2_os_subj.PTable.Exec.{Executed, answered, start_process, exec_update, exec_v}
use nachos_project_2_os_subj.PTable.Slots.{Runs, put_other}
use nachos_project_2_os_subj.PTable.Orders.{Family}

taken_cons :
    (b : Pcb) (xs : List (Option Pcb))
    → ((k : ℕ) → k < length xs → get_elem? xs k ≢ some none)
    → (k : ℕ) → k < suc (length xs)
    → get_elem? {A = Option Pcb} (some b ∷ xs) k ≢ some none
taken_cons b xs f zero l e = cc
taken_cons b xs f (suc k) l e = f k (omega arith) e

-- GetFreeSlot gives a slot that is free, and -1 where none is.
free_slot_from_lem :
    (xs : List (Option Pcb)) (i : ℕ)
    → ((free_slot_from xs i ≡ minus_one) × ((k : ℕ) → k < length xs → get_elem? xs k ≢ some none))
      ⊎ ((k : ℕ) × (free_slot_from xs i ≡ i + k) × (k < length xs) × (get_elem? xs k ≡ some none))
unfolding free_slot_from
free_slot_from_lem [] i = inl (refl, λ k l e. cc)
free_slot_from_lem (none ∷ xs) i = inr (0, omega arith, omega arith, refl)
free_slot_from_lem (some b ∷ xs) i = elim (free_slot_from_lem xs (i + 1)) [
  | inl (a, f) ↦ inl (a, taken_cons b xs f)
  | inr (k, a, l, g) ↦ inr (suc k, a ∙ omega arith, omega arith, g)
]

abbrev child : CString → ℕ → ℕ → Pcb
child name k current = record {
  joinsem = semaphore 0;
  exitsem = semaphore 0;
  mutex = semaphore 1;
  exitcode = none;
  numwait = none;
  process_id = k;
  filename = name;
  thread = some k;
  parent_id = some current;
}

-- With bmsem held, and given back at the end.
abbrev held : Semaphore
held = record { value = 0; queue = [] }

module _ (t : PTable) (name : CString) (current : ℕ) (small : length t.pcb ≡ max_process)
    (short : length name < filename_size) where
  start_full :
      free_slot_from t.pcb 0 ≡ minus_one
      → start_process (record t { bmsem = held }) (some name) current
        ≡ ok (answered (record t { bmsem = semaphore 1 }) minus_one none none)
  unfolding start_process get_free_slot v
  start_full e = rw (e, start_process) refl

  start_free :
      (k : ℕ)
      → free_slot_from t.pcb 0 ≡ k
      → k < length t.pcb
      → start_process (record t { bmsem = held }) (some name) current
        ≡ ok (
            answered
              (record (put t k (some (child name k current))) { bmsem = semaphore 1 })
              k
              (some k)
              none)
  unfolding start_process get_free_slot new_pcb enter p v
  start_free k e l =
      let positive : slt k 0 ≡ false = ground arith in
      rw (e, start_process, positive, lt→ltb (length name) filename_size short) refl

-- The call made a child of the process `current` in a slot that was free, or found no such slot.
abbrev pub Started : PTable → ℕ → Result Executed → Type 0
Started t current r =
    (((k : ℕ) → k < max_process → get_elem? t.pcb k ≢ some none)
      × (r ≡ ok (answered t minus_one none none)))
    ⊎ ((k : ℕ) × (t' : PTable) × (r ≡ ok (answered t' k (some k) none))
        × (get_elem? t.pcb k ≡ some none)
        × Family t' current k
        × (t'.bmsem ≡ semaphore 1)
        × (length t'.pcb ≡ max_process)
        × ((j : ℕ) → (j ≡ k) ⊎ (get_elem? t'.pcb j ≡ get_elem? t.pcb j)))

-- A table of ten slots, with the main process in slot 0, that no thread is changing, and the
-- process `current` that runs.
pub record IsCalm (t : PTable) (current : ℕ) : Type 0 where
  pub a : Pcb
  pub runs : Runs t current a
  pub mutex_free : a.mutex ≡ semaphore 1
  pub main : get_elem? t.pcb 0 ≢ some none
  pub slots : length t.pcb ≡ max_process
  pub unlocked : t.bmsem ≡ semaphore 1

other_slot :
    (t : PTable) (k j : ℕ) (slot : Option Pcb)
    → (j ≡ k) ⊎ (get_elem? (put t k slot).pcb j ≡ get_elem? t.pcb j)
other_slot t k j slot = elim (ℕ_discrete j k) [
  | yes e ↦ inl e
  | no n ↦ inr (put_other t k j slot (λ q. n (sym q)))
]

module _ (t : PTable) (name : CString) (current : ℕ) (calm : IsCalm t current)
    (short : length name < filename_size) where
  start_lem : Started t current (start_process (record t { bmsem = held }) (some name) current)
  start_lem = elim (free_slot_from_lem t.pcb 0) [
    | inl (e, f) ↦ inl (
      (λ k l. f k (omega (arith, calm.slots))),
      start_full t name current calm.slots short e
          ∙ ap (λ s. ok (answered (record t { bmsem = s }) minus_one none none))
              (sym calm.unlocked),
    )
    | inr (k, e, l, g) ↦
        let b = child name k current in
        let t' : PTable = record (put t k (some b)) { bmsem = semaphore 1 } in
        let elsewhere : k ≢ current = λ q. cc (g, calm.runs, q) in
        inr (
          k,
          t',
          start_free t name current calm.slots short k (e ∙ omega arith) l,
          g,
          record {
            a = calm.a;
            b = b;
            parent_runs = put_other t k current (some b) elsewhere ∙ calm.runs;
            child_runs = get_elem?-set_self t.pcb k (some b) l;
            child_of = refl;
            apart = λ q. elsewhere (sym q);
            not_main = λ q. calm.main (ap (get_elem? t.pcb) (sym q) ∙ g);
            in_table = omega (arith, calm.slots);
            mutex_free = calm.mutex_free;
            not_joined = refl;
            not_exited = refl;
          },
          refl,
          length-set t.pcb k (some b) ∙ calm.slots,
          λ j. other_slot t k j (some b),
        )
  ]

  exec_v_inside :
      exec_v t (some name) current ≡ start_process (record t { bmsem = held }) (some name) current
  unfolding exec_v p
  exec_v_inside = rw calm.unlocked refl

  -- ExecV of a name that fits, on a calm table: -1 and no change where no slot is free; otherwise
  -- it answers the number of a slot that was free, which then holds a child of the caller that
  -- neither has joined nor exited, and no other slot changes.
  pub exec_v-Started : Started t current (exec_v t (some name) current)
  exec_v-Started = subst (Started t current) (sym exec_v_inside) start_lem

  module _ (self : CString) where
    exec_itself :
        same_string name self ≡ true
        → exec_update t (some name) self current ≡ ok (answered t minus_one none none)
    unfolding exec_update p v
    exec_itself e = rw (calm.unlocked, e) refl

    exec_inside :
        same_string name self ≡ false
        → exec_update t (some name) self current
          ≡ start_process (record t { bmsem = held }) (some name) current
    unfolding exec_update p
    exec_inside e = rw (calm.unlocked, e) refl

    -- ExecUpdate of a name that fits, on a calm table: -1 and no change for the name of the thread
    -- itself and where no slot is free; otherwise it answers the number of a slot that was free,
    -- which then holds a child of the caller that neither has joined nor exited, and no other slot
    -- changes.
    pub exec_update-Started :
        ((same_string name self ≡ true)
          × (exec_update t (some name) self current ≡ ok (answered t minus_one none none)))
        ⊎ ((same_string name self ≡ false)
            × Started t current (exec_update t (some name) self current))
    exec_update-Started = elim (Bool-cases (same_string name self)) [
      | inl e ↦ inl (e, exec_itself e)
      | inr e ↦ inr (e, subst (Started t current) (sym (exec_inside e)) start_lem)
    ]
