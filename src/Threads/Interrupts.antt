-- ===== src/Threads/Interrupts.antt =====
-- machine/interrupt.h and machine/interrupt.cc, without OneTick: the pending interrupts in order of
-- time, and the handlers that are called when they are due.
use nachos_project_2_os_subj.Base.{
  ℕ, zero, suc, ◌+◌, ◌-◌, ◌^◌, Bool, true, false, List, [], ◌∷◌, length, none, some, Result, ok,
  err, assert_failed, halted, int_overflow, out_of_fuel, ◌>>=◌, ◌>>◌, assert, guard, ltb, leb, slt,
  minus_one, if◌then◌else◌,
}
use nachos_project_2_os_subj.Machine.{delayed_load}
use nachos_project_2_os_subj.Threads.{
  PendingInterrupt, IntType, System, idle_mode, system_mode, assert_off,
}

-- A sum of two numbers that are no negative `int`.
abbrev pub int_sum : ℕ → ℕ → Result ℕ
int_sum a b = guard (ltb (a + b) (2 ^ 31)) int_overflow >> ok (a + b)

-- PendingCompare
abbrev pub pending_compare : PendingInterrupt → PendingInterrupt → ℕ
pending_compare x y = if ltb x.when y.when then minus_one else if ltb y.when x.when then 1 else 0

-- SortedList<PendingInterrupt *>::Insert, of an item that no other list holds.
unfoldable pub insert : PendingInterrupt → List PendingInterrupt → List PendingInterrupt
insert item [] = item ∷ []
insert item (x ∷ xs) = if slt (pending_compare item x) 0 then item ∷ x ∷ xs else x ∷ insert item xs

-- The test that ends the loop over the interrupts that are due.
unfoldable pub is_due : List PendingInterrupt → ℕ → Bool
is_due [] now = false
is_due (next ∷ rest) now = leb next.when now

module _ {D : Type 0} where
  -- pending->RemoveFront() and the like
  abbrev pub set_pending : List PendingInterrupt → System D → System D
  set_pending pending w = record w { interrupt = record w.interrupt { pending = pending } }

  abbrev pub set_in_handler : Bool → System D → System D
  set_in_handler b w = record w { interrupt = record w.interrupt { in_handler = b } }

  -- Interrupt::YieldOnReturn
  unfoldable pub yield_on_return : System D → Result (System D)
  yield_on_return w = do
    assert w.interrupt.in_handler
    ok (record w { interrupt = record w.interrupt { yield_on_return = true } })

  -- Interrupt::Schedule, of a call `from_now` ticks ahead.
  unfoldable pub schedule : (to_call from_now : ℕ) → IntType → System D → Result (System D)
  unfolding insert
  schedule to_call from_now type w = do
    assert (slt 0 from_now)
    when ← int_sum w.stats.total_ticks from_now
    let to_occur : PendingInterrupt = record {
      call_on_interrupt = to_call;
      when = when;
      type = type;
    }
    ok (set_pending (insert to_occur w.interrupt.pending) w)

  -- The clock put forward to the next interrupt.
  abbrev pub advance_clock : PendingInterrupt → System D → System D
  advance_clock next w = record w {
    stats = record w.stats {
      idle_ticks = w.stats.idle_ticks + (next.when - w.stats.total_ticks);
      total_ticks = next.when;
    };
  }

  -- kernel->machine->DelayedLoad(0, 0), where there is a machine.
  abbrev pub settle_machine : System D → System D
  settle_machine w = record w {
    machine = elim w.machine [ none ↦ none | some m ↦ some (delayed_load m 0 0) ];
  }

  -- `call_back` is what CallBack does, of the object at an address.
  module _ (call_back : ℕ → System D → Result (System D)) where
    -- The loop over the interrupts that are due, with `fuel` rounds to go.
    unfoldable pub fire : ℕ → System D → Result (System D)
    unfolding is_due
    fire zero w = err out_of_fuel
    fire (suc fuel) w = elim w.interrupt.pending [
      | [] ↦ err assert_failed
      | next ∷ rest ↦ call_back next.call_on_interrupt (set_pending rest w) >>= λ w₁.
          elim (is_due w₁.interrupt.pending w₁.stats.total_ticks) [
            | true ↦ fire fuel w₁
            | false ↦ ok w₁
          ]
    ]

    -- The part of CheckIfDue that calls the handlers; no more of them are due than are pending.
    unfoldable pub call_handlers : System D → Result (System D × Bool)
    unfolding fire delayed_load
    call_handlers w = do
      w₁ ← fire (length w.interrupt.pending) (set_in_handler true (settle_machine w))
      ok (set_in_handler false w₁, true)

    -- Interrupt::CheckIfDue
    unfoldable pub check_if_due : Bool → System D → Result (System D × Bool)
    unfolding call_handlers
    check_if_due advance w = assert_off w >> (elim w.interrupt.pending [
      | [] ↦ ok (w, false)
      | next ∷ rest ↦ elim (ltb w.stats.total_ticks next.when) [
        | false ↦ call_handlers w
        | true ↦ elim advance [
          | false ↦ ok (w, false)
          | true ↦ call_handlers (advance_clock next w)
        ]
      ]
    ])

    -- Interrupt::Idle; it halts where nothing is pending.
    unfoldable pub idle : System D → Result (System D)
    unfolding check_if_due
    idle w = do
      r ← check_if_due true (record w { interrupt = record w.interrupt { status = idle_mode } })
      if r.1
          then ok (record r.0 { interrupt = record r.0.interrupt { status = system_mode } })
          else err halted
