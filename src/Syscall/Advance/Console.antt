-- ===== src/Syscall/Advance/Console.antt =====
-- What SC_Add, SC_PrintString, SC_ReadString and SC_PrintInt leave of the registers.
use nachos_project_2_os_subj.Base.{slt, length, no_memory}
use nachos_project_2_os_subj.UserMemory.Post.{Post, fails, Post-if, Post-bind, Post-any}
use nachos_project_2_os_subj.UserMemory.Kept.{IsUser, Kept-self, system_to_user-Kept}
use nachos_project_2_os_subj.FileSystem.{Host}
use nachos_project_2_os_subj.Syscall.State.{Kernel, arg}
use nachos_project_2_os_subj.Syscall.Advance.{Good, finish-Good, answer-Good, string_arg-Kept}
use nachos_project_2_os_subj.Syscall.Console.{
  sc_add, sc_print_string, read_until, sc_read_string, sc_print_int,
}

module _ {W : Type 0} (host : Host W) (k : Kernel W) (u : IsUser k.machine) where
  pub sc_add-Good : Post (Good k.machine) (sc_add host k)
  unfolding sc_add
  sc_add-Good =
      Post-any (arg k 4) _ λ a. Post-any (arg k 5) _ λ b. answer-Good _ _ _ (Kept-self _ u)

  pub sc_print_string-Good : Post (Good k.machine) (sc_print_string host k)
  unfolding sc_print_string
  sc_print_string-Good =
      Post-bind (string_arg-Kept k.machine k 4 255 (Kept-self _ u)) λ r l. finish-Good _ _ l

  pub sc_read_string-Good : Post (Good k.machine) (sc_read_string host k)
  unfolding sc_read_string
  sc_read_string-Good = Post-any (arg k 4) _ λ addr. Post-any (arg k 5) _ λ limit.
      Post-if (slt limit 0) _ _ (fails no_memory) (
        Post-any (read_until host limit k.world) _ λ line.
          Post-bind (system_to_user-Kept k.machine addr (length line.1) line.1 u)
            λ r l. finish-Good _ _ l)

  pub sc_print_int-Good : Post (Good k.machine) (sc_print_int host k)
  unfolding sc_print_int
  sc_print_int-Good = Post-any (arg k 4) _ λ n. finish-Good _ _ (Kept-self _ u)
