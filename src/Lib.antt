-- ===== src/Lib.antt =====
-- A model of the Nachos kernel of 21127047_21127183_21127638_Source, and what holds of it. Paths
-- below are under that folder.
--
-- User programs run on a simulated MIPS machine, under a kernel that keeps an address space per
-- program. The machine translates each address through the page table of the program that runs
-- (machine/translate.cc). An address space is built by reading an executable into free frames of the
-- memory, which a bitmap gives out (userprog/addrspace.cc, lib/bitmap.cc). Threads wait for each
-- other with semaphores and locks (threads/synch.cc), and programs with semaphores by name
-- (userprog/STable.cc). A table holds the processes, which wait for the exit codes of their children
-- (userprog/Ptable.cc, userprog/PCB.cc).
--
-- Files and code:
--   Bitmap.antt and Bitmap/     lib/bitmap.h, lib/bitmap.cc: init is the constructor; test, mark,
--                               clear, find_and_set and num_clear have the names of the methods.
--   Lists.antt and Lists/       lib/list.h and lib/list.cc: linked elements in a store, by address; the
--                               model keeps the queues of the kernel as plain sequences.
--   Machine.antt                machine/machine.h, machine/machine.cc, DelayedLoad of
--                               machine/mipssim.cc, and the traps of userprog/exception.cc that halt
--                               the machine.
--   Machine/Translate.antt      machine/translate.cc, Translate; Machine/Memory.antt: ReadMem and
--                               WriteMem. Machine/Bounds, Bytes and RoundTrip hold their theorems.
--   AddrSpace.antt              userprog/addrspace.cc: the destructor, InitRegisters, RestoreState,
--                               Translate, and the loop that fills a page table.
--   AddrSpace/Load.antt         the constructor from a file (construct) and Load (load), and
--                               userprog/noff.h. The other modules below AddrSpace hold theorems.
--   Synch.antt                  threads/synch.cc: P a round of its loop at a time, V, and locks;
--                               Synch/Protocol.antt: threads that call P and V in any order;
--                               Synch/Condition.antt: condition variables.
--   Threads.antt                threads/thread.h, threads/scheduler.h, machine/interrupt.h and
--                               machine/stats.h: threads, ready list, clock and pending interrupts.
--   Threads/Dispatch.antt       threads/scheduler.cc, with Run in two halves (run, run_again) around
--                               SWITCH; Interrupts.antt machine/interrupt.cc without OneTick;
--                               Clock.antt OneTick, SetLevel and Yield, which call each other;
--                               Lifetime.antt the rest of threads/thread.cc; Timer.antt
--                               machine/timer.cc and threads/alarm.cc. The other modules hold theorems.
--   STable.antt and STable/     userprog/STable.cc and userprog/Sem.cc.
--   PTable.antt and PTable/     userprog/PCB.cc and userprog/Ptable.cc: Exec.antt holds ExecUpdate and
--                               ExecV, Exit.antt JoinUpdate, ExitUpdate and Remove.
--   UserMemory.antt             userprog/exception.cc: IncreasePC, User2System and System2User.
--   FileSystem.antt             filesys/filesys.h and filesys/openfile.h, over the file calls of
--                               lib/sysdep.cc.
--   Syscall.antt                userprog/exception.cc, ExceptionHandler and the choice of the system
--                               call; Syscall/State.antt what the calls work on, Files.antt,
--                               Transfer.antt, Console.antt and Processes.antt the calls, each named
--                               as its case with sc_ in front. The other modules hold theorems.
--   Mips.antt                   machine/mipssim.h and machine/mipssim.cc: the instructions and Decode;
--                               Mips/Bits.antt, Mult.antt, Divide.antt and Transfer.antt the parts of
--                               OneInstruction, and Execute.antt the whole.
--   Base.antt and Base/         results, lists, and the integers of the host.
--   Tests.antt and Tests/       the theorems at concrete inputs.
--
-- An int or unsigned int is a number below 2 ^ 32, the pattern of its bits: -1 is 2 ^ 32 - 1,
-- signed comparisons are slt and sle, and sums are cut to 32 bits where they can pass it. A call
-- returns a Result: a value, or the fault that ends the run (a failed ASSERT, a halt of the
-- machine, a halt after an exception, by its number, an access outside of what is allocated, a wait
-- with no other thread to run). Loops recurse on the number of rounds that the code's bound leaves.
-- Only the loop of SC_Write to the console has no bound of its own and gets fuel: 65 rounds of 255
-- characters are more than the memory holds. Ticks inside of ticks, and the wait of Sleep for a
-- thread to run, get fuel as a parameter; where the timer is the only device and not random, three
-- of the former are enough. The loop of CheckIfDue has as many rounds as interrupts are pending.
--
-- The model is of the program as its Makefiles build it: with RDATA and FILESYS_STUB, without
-- USE_TLB, on little-endian hosts with a signed char. The host's file is a function from a position
-- and a number of bytes to the bytes that it gives; IsFile says that they are no more than asked
-- for. Interrupts are off in P, V and their kin, so that each is one step; Wait of a condition is
-- two, up to its P and from there on. addrLock is the value of its semaphore, in a run with no
-- other thread.
--
-- The operating system under the simulator and its console are the record Host: calls on a state of
-- any type, with any answers. Of a system call the model keeps what changes the kernel or the
-- host's state, and leaves out the messages. A call that puts its thread to sleep ends there; what
-- the thread does when it runs again is not part of the step.
--
-- The handlers of interrupts are a parameter of the clock, since CallBack is virtual; Obey says
-- what they may do, and the timer is one that does no more. A routine of a thread comes to its end
-- or to a SWITCH (Turn); what follows the SWITCH in that thread is a routine of its own. Times are
-- no negative int, and a sum of them that is no int ends the run.
--
-- Not modelled: the consoles, the disk and the network and their drivers, the disk file system,
-- which the Makefiles leave out, the loop over instructions with the clock, SWITCH itself with the
-- registers of the host, the destructor of a PCB, which frees the address space and finishes the
-- thread, and the hash table. Printing is left out.
pub mod Base
pub mod Bitmap
pub mod Lists
pub mod Machine
pub mod AddrSpace
pub mod Synch
pub mod Threads
pub mod STable
pub mod PTable
pub mod UserMemory
pub mod FileSystem
pub mod Mips
pub mod Syscall
pub mod Tests
