-- ===== src/Syscall.antt =====
-- userprog/exception.cc, ExceptionHandler on system calls: the state that they work on, and the
-- choice of the call. A call's arguments are in registers 4 to 6, and its result goes to register 2.
pub mod State
pub mod Files
pub mod Transfer
pub mod Console
pub mod Processes
pub mod Advance
pub mod Errors
use nachos_project_2_os_subj.Base.{
  ℕ, Option, none, some, Result, ok, err, halted, assert_failed, ◌>>=◌, ◌>>◌, if◌then◌else◌, ◌==◌,
  List, [],
}
use nachos_project_2_os_subj.Machine.{ExceptionType, syscall_exception, trap, read_register}
use nachos_project_2_os_subj.FileSystem.{Host}
use nachos_project_2_os_subj.Syscall.State.{Kernel, Outcome, returned}
use nachos_project_2_os_subj.Syscall.Files.{
  sc_create, sc_open, sc_close, sc_seek, sc_remove, sc_socket, sc_connect,
}
use nachos_project_2_os_subj.Syscall.Transfer.{sc_read, sc_write, sc_send, sc_receive}
use nachos_project_2_os_subj.Syscall.Console.{sc_print_string, sc_read_string, sc_print_int, sc_add}
use nachos_project_2_os_subj.Syscall.Processes.{
  sc_exec, sc_exec_v, sc_join, sc_exit, sc_create_semaphore, sc_wait, sc_signal,
}

pub data Call : Type 0 where
  halt exit exec join create remove open_call read write seek close exec_v create_semaphore wait :
      Call
  signal socket connect send receive add print_string read_string print_int : Call

-- userprog/syscall.h
unfoldable pub call_of : ℕ → Option Call
call_of code =
    if code == 0
    then some halt
    else if code == 1
    then some exit
    else if code == 2
    then some exec
    else if code == 3
    then some join
    else if code == 4
    then some create
    else if code == 5
    then some remove
    else if code == 6
    then some open_call
    else if code == 7
    then some read
    else if code == 8
    then some write
    else if code == 9
    then some seek
    else if code == 10
    then some close
    else if code == 55
    then some exec_v
    else if code == 16
    then some create_semaphore
    else if code == 17
    then some wait
    else if code == 18
    then some signal
    else if code == 50
    then some socket
    else if code == 51
    then some connect
    else if code == 52
    then some send
    else if code == 53
    then some receive
    else if code == 42
    then some add
    else if code == 43
    then some print_string
    else if code == 44
    then some read_string
    else if code == 45
    then some print_int
    else none

module _ {W : Type 0} (host : Host W) where
  unfoldable pub handle : Call → Kernel W → Result (Outcome W)
  handle halt k = err halted
  handle exit k = sc_exit k
  handle exec k = sc_exec host k
  handle join k = sc_join k
  handle create k = sc_create host k
  handle remove k = sc_remove host k
  handle open_call k = sc_open host k
  handle read k = sc_read host k
  handle write k = sc_write host k
  handle seek k = sc_seek host k
  handle close k = sc_close host k
  handle exec_v k = sc_exec_v k
  handle create_semaphore k = sc_create_semaphore k
  handle wait k = sc_wait k
  handle signal k = sc_signal k
  handle socket k = sc_socket host k
  handle connect k = sc_connect host k
  handle send k = sc_send host k
  handle receive k = sc_receive host k
  handle add k = sc_add host k
  handle print_string k = sc_print_string host k
  handle read_string k = sc_read_string host k
  handle print_int k = sc_print_int host k

  -- ExceptionHandler. An unknown call prints a message and fails ASSERTNOTREACHED; NoException
  -- leaves the switch, behind which nothing is done, and IncreasePC stands inside of it.
  unfoldable pub exception_handler : ExceptionType → Kernel W → Result (Outcome W)
  exception_handler which k = elim which [
    | syscall_exception ↦ read_register k.machine 2 >>= λ code. elim (call_of code) [
      | none ↦ err assert_failed
      | some call ↦ handle call k
    ]
    | other ↦ trap other >> ok (returned k [])
  ]
