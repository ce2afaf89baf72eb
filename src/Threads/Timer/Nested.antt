-- ===== src/Threads/Timer/Nested.antt =====
-- Ticks inside of ticks come to an end, where the timer is the only device.
use nachos_project_2_os_subj.Base.{ℕ, ◌+◌, ◌≡◌, false, List, [], ◌∷◌}
use nachos_project_2_os_subj.Threads.{PendingInterrupt, System}
use nachos_project_2_os_subj.Threads.Interrupts.{yield_on_return, is_due}
use nachos_project_2_os_subj.Threads.Timer.{Timer}

-- Nothing is due within the next ten ticks.
Quiet : List PendingInterrupt → ℕ → Type 0
Quiet pending now = is_due pending (now + 10) ≡ false

-- The timer is not random, and its interrupt is the only one.
Single : List PendingInterrupt → Timer → Type 0
Single pending timer = (timer.randomize ≡ false) × (p : PendingInterrupt) × (pending ≡ p ∷ [])

module _ (this : ℕ) where
  -- The same for the next tick, but for the level.
  abbrev Same : System Timer → System Timer → Type 0
  Same w v =
      (v.interrupt.pending ≡ w.interrupt.pending)
      × (v.interrupt.yield_on_return ≡ w.interrupt.yield_on_return)
      × (v.devices ≡ w.devices)
