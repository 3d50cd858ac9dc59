-- ===== src/Lib.antt =====
-- HOCA operating system: the queues, the nucleus and the support level.
--
-- The program is the nucleus of a small operating system for one processor. queues/procq.c keeps
-- the process table, its free list and queues of processes; queues/asl.c keeps the semaphores
-- that processes wait for; nucleus/traps/syscall.c has the system calls, nucleus/traps/trap.c the
-- trap handlers, nucleus/interrupts/int.c the device and clock interrupts, and
-- nucleus/traps/main.c the start and the scheduler. A handler starts from the state that the
-- machine left in a fixed area, calls the routines of the lower files on the global variables,
-- and ends by loading a processor state. The support level (support/) is processes above the
-- nucleus: terminal processes with their trap handlers, the cron process and two daemons, which
-- share page frames, tables and requests, and reach the nucleus by system calls only.
--
-- Prelude: tests, lists, and the 32-bit `int` with its wrap-around. Machine: h/types.h,
--   h/const.h, h/procq.h and h/vpop.h. A pointer to a table entry is `some` of its index, and
--   ENULL is `none`; an index of p_link is treated in the same way.
-- Run: a routine is a function from a state to a result and a new state, or to the way in which
--   control leaves the nucleus (`Exit`): a loaded state, a stop, a halt, the trap of panic(), a
--   fault on ENULL, or the end of the fuel of a loop.
-- Procq: queues/procq.c (headQueue is head_queue, and so on), on the record Procs. Procq.Cells has
--   the p_link slots as cells and the rings that queues are, Procq.Spares what an operation
--   leaves alone, and the other children the operations: Insert, Remove, Search and Out, Free,
--   FreeTail, Init.
-- Asl: queues/asl.c on the record Sems, which holds the Procs and the words of memory. Asl.Find
--   is about the walk along the active list, Asl.Enter and Asl.Append about insertBlocked with
--   a descriptor (Asl.Relink has the new link of a descriptor), Asl.Wake about removeBlocked
--   with more than one waiting process, Asl.Full about insertBlocked when no descriptor is
--   left. The lists of descriptors: Asl.Lists and Asl.Unlink have doubly linked lists,
--   Asl.Shape the active and the free list together, Asl.Names the semaphores of the active
--   ones; Asl.Take moves a descriptor from the free list to the active one, Asl.Removal and
--   Asl.Release move it back. The abstract view, a queue for every semaphore, is Refines in
--   Asl.Waiting; Asl.Claim and Asl.Insertion are about insertBlocked, Asl.Return and
--   Asl.Withdrawal about removeBlocked, Asl.Start about initSemd, Asl.Capacity about headASL,
--   Asl.Life about sequences of insertBlocked and removeBlocked after initSemd (not
--   outBlocked), Asl.Bound about the number of semaphores.
-- Kernel: the variables of the nucleus, memory and the machine. Sched: schedule, intdeadlock
--   and printer, with Sched.Idle for an empty running queue. Interrupt: the rest of
--   nucleus/interrupts/int.c. Syscall: nucleus/traps/syscall.c. Trap: nucleus/traps/trap.c.
--   Boot: nucleus/traps/main.c. Kernel.Running is about the process at the head of the running
--   queue, Interrupt.Handshake about interrupts and SYS8, Trap.Deliver and Trap.Vectors about
--   SYS5 and the traps that a process gets. Kernel.Queues has the running queue together with
--   the queues of the semaphores, Interrupt.Park and Interrupt.Signal P and V of intsemop on
--   them, and Sched.Dispatch schedule with a process that is ready. Syscall.Siblings has the
--   list of the children of a process, Syscall.Adopt what Create_Process does to it, and
--   Syscall.Depart, Syscall.Places, Syscall.Leave and Syscall.Goodbye what Terminate_Process
--   does to it; Syscall.Create has the whole of Create_Process.
-- Support: State has h/support.h and the shared variables; Prog what a process does, a program
--   that reads and changes them and makes system calls, between and during which others run.
--   Page, PageInit and PageDaemon are support/part2/page.c; Calls2 and DiskDaemon are
--   support/part2/slsyscall2.c; Calls1 is support/part1/slsyscall1.c; P1, Handlers and Cron are
--   support/part1/support.c. Page.Claim is about the frame that a process gets, Page.Put about
--   those it gives back, Page.Place about get_disk_pos, DiskDaemon.Nearest and DiskDaemon.Found
--   about the order of disk requests, Calls2.Waits about P on a virtual semaphore,
--   PageInit.Tables about the page tables of the daemons, P1.Segs, P1.Pages and P1.Tables about
--   the tables of the terminal processes, PageInit.Layout about the frames, Guard about the
--   tables that pagedaemon and slmmhandler change between P and V of sem_mm.
-- Samples: the theorems at concrete states.
--
-- Fuel: the walk of freeProc has maxproc rounds, the search of outProc maxproc * semmax; a queue in
-- which no process stands twice has at most maxproc entries. The walks of asl.c have one round
-- more than there are descriptors, those over siblings one more than there are processes. The
-- daemons and the cron process run for a number of rounds that is an argument, since their loops end
-- only when no terminal process is left.
--
-- Memory is read through three typed views, which are taken not to overlap: words that are
-- semaphores, state_t areas, and the arrays of SYS3. The addresses of dev_sem and clock_lock
-- are fixed numbers. A subscript of p_link and semvec is not checked against SEMMAX. The order
-- of the fields of a record follows the source where that matters.
--
-- What printer() reads of the printer's status is a list; the model ends as out_of_fuel when
-- the list is used up before a reading is NORMAL, where the code goes on polling.
--
-- In the support level a semaphore has a name, user memory is words and bytes, and what the
-- linker and part1/h/tconst.h (SEG1, SEG2), which is not in the repository, decide is in the
-- record Linked. A process runs in steps, each a look at the shared variables or a change of
-- them; a loop over them without a call is one look or one change. The address of a buffer of a
-- terminal is an argument of the routines that store it in a device register. A use of a value
-- that C leaves undefined, as the result of get_disk_pos on a full disk, ends the program as
-- `undefined`.
--
-- Not modelled: the assembly routines and the simulator (LDST, STST, STCK, LDIT and HALT are exits,
-- calls or fields of the state), the message that panic() copies, and the test programs.
pub mod Prelude
pub mod Machine
pub mod Run
pub mod Procq
pub mod Asl
pub mod Kernel
pub mod Sched
pub mod Interrupt
pub mod Syscall
pub mod Trap
pub mod Boot
pub mod Samples
pub mod Support
