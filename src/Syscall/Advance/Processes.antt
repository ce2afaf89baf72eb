-- ===== src/Syscall/Advance/Processes.antt =====
-- What the calls on processes and named semaphores leave of the registers.
use nachos_project_2_os_subj.Base.{
  ℕ, zero, suc, ◌+◌, List, some, deref, slt, u32, get_elem?, inr, refl,
}
use nachos_project_2_os_subj.Machine.{Machine}
use nachos_project_2_os_subj.UserMemory.Post.{
  Post, comes, fails, Post-if, Post-bind, Post-any, Post-option,
}
use nachos_project_2_os_subj.UserMemory.Kept.{
  IsUser, Kept, Kept-self, further, user_to_system-Kept, read_mem-Kept,
}
use nachos_project_2_os_subj.FileSystem.{Host, delete_file, open_file}
use nachos_project_2_os_subj.STable.{CString}
use nachos_project_2_os_subj.Syscall.State.{Kernel, arg}
use nachos_project_2_os_subj.Syscall.Advance.{
  Good, answer-Good, answer_ready-Good, sleeping-Good, ended-Good, string_arg-Kept,
}
use nachos_project_2_os_subj.STable
use nachos_project_2_os_subj.STable.{Waited, create}
use nachos_project_2_os_subj.PTable.Exec.{Executed, answered, exec_sleeps, exec_update, exec_v}
use nachos_project_2_os_subj.PTable.Exit.{
  Joined, joined, join_sleeps, join_update, Exited, exited, exit_sleeps, exit_update,
}
use nachos_project_2_os_subj.Syscall.Files.{max_file_length}
use nachos_project_2_os_subj.Syscall.Processes.{
  max_length_process_name, read_args, executed, after_join, after_exit, after_wait, sc_exec,
  sc_exec_v, sc_join, sc_exit, sc_create_semaphore, sc_wait, sc_signal,
}

read_args-Kept :
    (left addr : ℕ) (m : Machine) → IsUser m → Post (λ r. Kept m r.1) (read_args left addr m)
unfolding read_args
read_args-Kept zero addr m u = comes _ (Kept-self m u)
read_args-Kept (suc left) addr m u = Post-bind (read_mem-Kept m addr 4 u (inr (inr refl))) λ r h.
    Post-any (deref r.0) _ λ a.
      Post-bind (further h (user_to_system-Kept r.1 a max_file_length h.user)) λ s l.
        Post-bind (further l (read_args-Kept left (u32 (addr + 4)) s.1 l.user)) λ rest n. comes _ n

module _ {W : Type 0} where
  executed-Good :
      (m : Machine) (k : Kernel W) (e : Executed) → Kept m k.machine → Post (Good m) (executed k e)
  unfolding executed
  executed-Good m k (answered t result forked woken) h = answer_ready-Good _ _ _ _ h
  executed-Good m k (exec_sleeps t) h = sleeping-Good _ _ _ h

  after_join-Good :
      (m : Machine) (k : Kernel W) (j : Joined) → Kept m k.machine → Post (Good m) (after_join k j)
  unfolding after_join
  after_join-Good m k (joined t exitcode woken) h =
      Post-any (deref exitcode) _ λ code. answer_ready-Good _ _ _ _ h
  after_join-Good m k (join_sleeps t) h = sleeping-Good _ _ _ h

  after_exit-Good :
      (m : Machine) (k : Kernel W) (ready : List ℕ) (e : Exited)
      → Kept m k.machine
      → Post (Good m) (after_exit k ready e)
  unfolding after_exit
  after_exit-Good m k ready (exited t) h = ended-Good _ _ _ h
  after_exit-Good m k ready (exit_sleeps t) h = sleeping-Good _ _ _ h

  after_wait-Good :
      (m : Machine) (k : Kernel W) (r : Waited) → Kept m k.machine → Post (Good m) (after_wait k r)
  unfolding after_wait
  after_wait-Good m k (STable.returned t result) h = answer-Good _ _ _ h
  after_wait-Good m k (STable.sleeps t) h = sleeping-Good _ _ _ h

module _ {W : Type 0} (k : Kernel W) (u : IsUser k.machine) where
  pub sc_exec-Good : (host : Host W) → Post (Good k.machine) (sc_exec host k)
  unfolding sc_exec
  sc_exec-Good host =
      Post-bind (string_arg-Kept k.machine k 4 (max_length_process_name + 1) (Kept-self _ u)) λ r h.
        Post-option (open_file host r.1 r.0.world).1 _ _ (answer-Good _ _ _ h) λ f.
          Post-any (delete_file host f (open_file host r.1 r.0.world).0) _ λ w.
            Post-any (exec_update r.0.processes (some r.1) r.0.thread_name r.0.current) _
              λ e. executed-Good _ _ e h

  pub sc_exec_v-Good : Post (Good k.machine) (sc_exec_v k)
  unfolding sc_exec_v
  sc_exec_v-Good = Post-any (arg k 4) _ λ argc. Post-any (arg k 5) _ λ addr.
      Post-if (slt argc 0) _ _ (fails _) (
        Post-bind (read_args-Kept argc addr k.machine u) λ args h.
          Post-any (exec_v k.processes (get_elem? args.0 0) k.current) _ λ e. executed-Good _ _ e h)

  pub sc_join-Good : Post (Good k.machine) (sc_join k)
  unfolding sc_join
  sc_join-Good =
      let h = Kept-self k.machine u in
      Post-any (arg k 4) _
        λ id. Post-any (join_update k.processes id k.current) _ λ j. after_join-Good _ _ j h

  pub sc_exit-Good : Post (Good k.machine) (sc_exit k)
  unfolding sc_exit
  sc_exit-Good =
      let h = Kept-self k.machine u in
      Post-any (arg k 4) _
        λ code. Post-any (exit_update k.processes code k.current) _ λ e. after_exit-Good _ _ _ e.1 h

  pub sc_create_semaphore-Good : Post (Good k.machine) (sc_create_semaphore k)
  unfolding sc_create_semaphore
  sc_create_semaphore-Good =
      Post-bind (string_arg-Kept k.machine k 4 (max_length_process_name + 1) (Kept-self _ u)) λ r h.
        Post-any (arg r.0 5) _
          λ value. Post-any (create r.0.sems r.1 value) _ λ made. answer-Good _ _ _ h

  pub sc_signal-Good : Post (Good k.machine) (sc_signal k)
  unfolding sc_signal
  sc_signal-Good =
      Post-bind (string_arg-Kept k.machine k 4 (max_length_process_name + 1) (Kept-self _ u))
        λ r h. Post-any (STable.signal r.0.sems r.1) _ λ s. answer_ready-Good _ _ _ _ h

  pub sc_wait-Good : Post (Good k.machine) (sc_wait k)
  unfolding sc_wait
  sc_wait-Good =
      Post-bind (string_arg-Kept k.machine k 4 (max_length_process_name + 1) (Kept-self _ u))
        λ r h. Post-any (STable.wait r.0.sems r.1 r.0.current) _ λ s. after_wait-Good _ _ s h
