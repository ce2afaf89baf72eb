-- ===== src/Syscall/Advance/Handler.antt =====
-- What ExceptionHandler leaves of the registers on each system call.
use nachos_project_2_os_subj.Base.{ok, halted, assert_failed, ◌≡◌, List, ℕ}
use nachos_project_2_os_subj.Machine.{syscall_exception, read_register}
use nachos_project_2_os_subj.UserMemory.Post.{Post, fails, Post-at, Post-any, Post-option}
use nachos_project_2_os_subj.UserMemory.Kept.{IsUser}
use nachos_project_2_os_subj.FileSystem.{Host}
use nachos_project_2_os_subj.Syscall.{
  Call, halt, exit, exec, join, create, remove, open_call, read, write, seek, close, exec_v,
  create_semaphore, wait, signal, socket, connect, send, receive, add, print_string, read_string,
  print_int, handle, call_of, exception_handler,
}
use nachos_project_2_os_subj.Syscall.State.{Kernel, returned}
use nachos_project_2_os_subj.Syscall.Advance.{Good, Advanced}
use nachos_project_2_os_subj.Syscall.Advance.Files.{
  sc_create-Good, sc_open-Good, sc_close-Good, sc_seek-Good, sc_remove-Good, sc_socket-Good,
  sc_connect-Good,
}
use nachos_project_2_os_subj.Syscall.Advance.Transfer.{
  sc_read-Good, sc_write-Good, sc_send-Good, sc_receive-Good,
}
use nachos_project_2_os_subj.Syscall.Advance.Console.{
  sc_add-Good, sc_print_string-Good, sc_read_string-Good, sc_print_int-Good,
}
use nachos_project_2_os_subj.Syscall.Advance.Processes.{
  sc_exec-Good, sc_exec_v-Good, sc_join-Good, sc_exit-Good, sc_create_semaphore-Good, sc_wait-Good,
  sc_signal-Good,
}

module _ {W : Type 0} (host : Host W) (k : Kernel W) (u : IsUser k.machine) where
  handle-Good : (call : Call) → Post (Good k.machine) (handle host call k)
  unfolding handle
  handle-Good halt = fails halted
  handle-Good exit = sc_exit-Good k u
  handle-Good exec = sc_exec-Good k u host
  handle-Good join = sc_join-Good k u
  handle-Good create = sc_create-Good host k u
  handle-Good remove = sc_remove-Good host k u
  handle-Good open_call = sc_open-Good host k u
  handle-Good read = sc_read-Good host k u
  handle-Good write = sc_write-Good host k u
  handle-Good seek = sc_seek-Good host k u
  handle-Good close = sc_close-Good host k u
  handle-Good exec_v = sc_exec_v-Good k u
  handle-Good create_semaphore = sc_create_semaphore-Good k u
  handle-Good wait = sc_wait-Good k u
  handle-Good signal = sc_signal-Good k u
  handle-Good socket = sc_socket-Good host k u
  handle-Good connect = sc_connect-Good host k u
  handle-Good send = sc_send-Good host k u
  handle-Good receive = sc_receive-Good host k u
  handle-Good add = sc_add-Good host k u
  handle-Good print_string = sc_print_string-Good host k u
  handle-Good read_string = sc_read_string-Good host k u
  handle-Good print_int = sc_print_int-Good host k u

  handler-Good : Post (Good k.machine) (exception_handler host syscall_exception k)
  unfolding exception_handler
  handler-Good =
      Post-any (read_register k.machine 2) _
        λ code. Post-option (call_of code) _ _ (fails assert_failed) λ call. handle-Good call

  -- On a machine that runs a program through a page table, with no TLB: whenever ExceptionHandler
  -- returns to the program from a system call in which its thread has not slept, on any system call
  -- and with any answers of the host, the program counter has moved on by 4, the next one is 8
  -- above where it was, the previous one is where it was, no register but these and register 2 has
  -- changed, and the machine still runs through a page table.
  pub exception_handler-Advanced :
      (k' : Kernel W) (ready : List ℕ)
      → exception_handler host syscall_exception k ≡ ok (returned k' ready)
      → Advanced k.machine k'.machine
  unfolding Good
  exception_handler-Advanced k' ready h = Post-at _ _ handler-Good h
