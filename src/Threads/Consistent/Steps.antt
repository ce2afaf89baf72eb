-- ===== src/Threads/Consistent/Steps.antt =====
-- However the threads take turns, the scheduler stays consistent.
use nachos_project_2_os_subj.Base.{ℕ, ◌≡◌, ◌≢◌, false, List, ◌∷◌, none, some, Result, ok}
use nachos_project_2_os_subj.Threads.{
  just_created, blocked, Thread, IntStatus, System, store_thread,
}
use nachos_project_2_os_subj.UserMemory.Post.{Post-at}
use nachos_project_2_os_subj.Threads.Dispatch.{ready_to_run, run_again}
use nachos_project_2_os_subj.Threads.Clock.{
  Turn, goes, switched, one_tick, set_level, yield, yield_again,
}
use nachos_project_2_os_subj.Threads.Lifetime.{new_thread, fork, begin, sleep, finish}
use nachos_project_2_os_subj.Threads.Handlers.{Obey, Does, done, readies, Does-Kept}
use nachos_project_2_os_subj.Threads.Consistent.{IsConsistent, Does-SchedBy}
use nachos_project_2_os_subj.Threads.Consistent.Ticks.{
  TurnOk, still-IsConsistent, set_level-TurnOk, yield-TurnOk, one_tick-TurnOk,
}
use nachos_project_2_os_subj.Threads.Consistent.Runs.{sleep-IsConsistent, fork-TurnOk, begin-TurnOk}
use nachos_project_2_os_subj.Threads.Consistent.Ends.{
  finish-IsConsistent, run_again-IsConsistent, yield_again-TurnOk, create-IsConsistent,
}

-- Where a turn leaves the system.
abbrev pub left : {D : Type 0} → Turn D → System D
left (goes w) = w
left (switched w) = w

-- What the thread that runs may do, and what the thread that has come to run does first: `resumes`
-- where it had yielded, `continues` where it had slept, and `begins` where it is new. A thread
-- finishes while another one is ready. `wakes` is what V does to a thread that sleeps.
pub data Step {D : Type 0} (call_back : ℕ → System D → Result (System D)) (w : System D)
    : System D → Type 0 where
  creates :
      (a : ℕ) (registers : ℕ → ℕ)
      → w.threads a ≡ none
      → Step call_back w
          (record w { threads = store_thread w.threads a (some (new_thread registers)) })
  forks :
      (fuel a func arg : ℕ) (t : Thread) {turn : Turn D}
      → w.threads a ≡ some t
      → t.status ≡ just_created
      → fork call_back fuel a func arg w ≡ ok turn
      → Step call_back w (left turn)
  ticks :
      (fuel : ℕ) {turn : Turn D}
      → one_tick call_back fuel w ≡ ok turn
      → Step call_back w (left turn)
  sets_level :
      (fuel : ℕ) (now : IntStatus) {turn : Turn D}
      → set_level call_back fuel now w ≡ ok turn
      → Step call_back w (left turn)
  gives_way :
      (fuel : ℕ) {turn : Turn D}
      → yield call_back fuel w.current_thread w ≡ ok turn
      → Step call_back w (left turn)
  resumes :
      (fuel : ℕ) (level : IntStatus) {turn : Turn D}
      → yield_again call_back fuel w.current_thread level w ≡ ok turn
      → Step call_back w (left turn)
  continues : {v : System D} → run_again w.current_thread w ≡ ok v → Step call_back w v
  begins :
      (fuel : ℕ) {turn : Turn D}
      → begin call_back fuel w.current_thread w ≡ ok turn
      → Step call_back w (left turn)
  sleeps :
      (fuel : ℕ) {v : System D}
      → sleep call_back fuel w.current_thread false w ≡ ok v
      → Step call_back w v
  finishes :
      (fuel next : ℕ) (rest : List ℕ) {v : System D}
      → w.scheduler.ready_list ≡ next ∷ rest
      → finish call_back fuel w.current_thread w ≡ ok v
      → Step call_back w v
  wakes :
      (a : ℕ) (t : Thread) {v : System D}
      → w.threads a ≡ some t
      → t.status ≡ blocked
      → w.scheduler.to_be_destroyed ≢ some a
      → ready_to_run a w ≡ ok v
      → Step call_back w v

-- From `w` on, in any number of steps.
pub data Reach {D : Type 0} (call_back : ℕ → System D → Result (System D)) (w : System D)
    : System D → Type 0 where
  start : Reach call_back w w
  next : {u v : System D} → Reach call_back w u → Step call_back u v → Reach call_back w v

module _ {D : Type 0} (call_back : ℕ → System D → Result (System D)) (obey : Obey call_back) where
  left-IsConsistent : (c : ℕ) (turn : Turn D) → TurnOk c turn → IsConsistent (left turn)
  left-IsConsistent c (goes v) h = h.0
  left-IsConsistent c (switched v) h = h

  wakes-IsConsistent :
      (a : ℕ) (t : Thread) (w v : System D)
      → w.threads a ≡ some t
      → t.status ≡ blocked
      → w.scheduler.to_be_destroyed ≢ some a
      → ready_to_run a w ≡ ok v
      → IsConsistent w
      → IsConsistent v
  wakes-IsConsistent a t w v e b n q s =
      let d : Does w v = readies a t done e b n q in
      still-IsConsistent w v (Does-SchedBy (some w.current_thread) d s, (Does-Kept d).current)

  Step-IsConsistent : {w v : System D} → Step call_back w v → IsConsistent w → IsConsistent v
  Step-IsConsistent (creates a registers free) s =
      create-IsConsistent call_back obey a registers _ s free
  Step-IsConsistent (forks fuel a func arg t e j q) s =
      left-IsConsistent _ _ (Post-at _ _ (fork-TurnOk call_back obey fuel a func arg t _ s e j) q)
  Step-IsConsistent (ticks fuel q) s =
      left-IsConsistent _ _ (Post-at _ _ (one_tick-TurnOk call_back obey fuel _ s) q)
  Step-IsConsistent (sets_level fuel now q) s =
      left-IsConsistent _ _ (Post-at _ _ (set_level-TurnOk call_back obey fuel now _ s) q)
  Step-IsConsistent (gives_way fuel q) s =
      left-IsConsistent _ _ (Post-at _ _ (yield-TurnOk call_back obey fuel _ _ s) q)
  Step-IsConsistent (resumes fuel level q) s =
      left-IsConsistent _ _ (Post-at _ _ (yield_again-TurnOk call_back obey fuel _ level _ s) q)
  Step-IsConsistent (continues q) s =
      let k = Post-at _ _ (run_again-IsConsistent call_back obey _ _ s) q in k.0
  Step-IsConsistent (begins fuel q) s =
      left-IsConsistent _ _ (Post-at _ _ (begin-TurnOk call_back obey fuel _ _ s) q)
  Step-IsConsistent (sleeps fuel q) s = Post-at _ _ (sleep-IsConsistent call_back obey fuel _ _ s) q
  Step-IsConsistent (finishes fuel a l e q) s =
      Post-at _ _ (finish-IsConsistent call_back obey fuel _ a l _ s e) q
  Step-IsConsistent (wakes a t e b n q) s = wakes-IsConsistent a t _ _ e b n q s

  -- Where interrupt handlers do no more than schedule interrupts, make ready threads that are
  -- blocked and not finished, ask for a switch, and change their devices: in whatever order threads
  -- are created, forked and begun, tick, set the interrupt level, yield, sleep, wake others, run
  -- again, and finish while another is ready, from a consistent scheduler one is reached in which
  -- the current thread is the only one that is RUNNING, the ready list holds the READY threads,
  -- each once, and the thread to be destroyed is BLOCKED.
  pub Reach-IsConsistent : (w v : System D) → IsConsistent w → Reach call_back w v → IsConsistent v
  Reach-IsConsistent w _ s start = s
  Reach-IsConsistent w _ s (next r step) = Step-IsConsistent step (Reach-IsConsistent w _ s r)
