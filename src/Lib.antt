-- ===== src/Lib.antt =====
-- A model of the kernel KUDOS as it stands in OSM/Assignments/Fifth_Assignment/kudos/kudos
-- (paths below are from there, unless they begin with OSM or ARK), of the priority queue of
-- OSM/Assignments/Third_Assignment/queue, and of the pipeline simulator of ARK/G3.
--
-- The parts and how they meet: the scheduler keeps a ready list that is linked through the
-- thread table, and the sleep queues link waiting threads through the same field of the same
-- table. Semaphores and the process table put threads to sleep on an address, the address of a
-- semaphore or of a process control block, and wake them by it. The processes end their thread
-- by the thread library, which gives the processor to the scheduler. The virtual filesystem
-- calls a mounted filesystem through a table of functions; the trivial filesystem is one, and it
-- uses the bitmaps for its allocation block and the C library for names and copies. The static
-- allocation, the priority queue and the simulator stand on their own.
--
-- - Base: names that all files share, with integers over the native numbers, arrays as
--   functions, and Outcome, the ways in which kernel code ends: a value, a panic, an access out
--   of range, or a loop that its rounds do not finish.
-- - Kernel: the globals as one record. An index of the thread table is a number; a TID_t that
--   may be negative is an integer.
-- - Kernel.Scheduler: kernel/scheduler.c. scheduler_add_to_ready_list is add_to_ready_list,
--   scheduler_remove_first_ready is remove_first_ready, scheduler_add_ready is add_ready, and
--   scheduler_schedule is schedule with retire for its first half.
-- - Kernel.SleepQueue: kernel/sleepq.c. seek is the search that sleepq_wake and sleepq_wake_all
--   share, unlink and wake_thread what they do with the thread that it finds, wake_loop the
--   outer loop of sleepq_wake_all.
-- - Kernel.Threads: kernel/thread.c, and kernel/mips32/cswitch.c for the contexts. The addresses
--   of thread_finish, of the idle loop and of the function of a new thread are arguments.
-- - Kernel.Semaphore: kernel/semaphore.c.
-- - Pages: physmem_freeblock of vm/mips32/mm_phys.c and vm_destroy_pagetable of
--   vm/mips32/mm_virt.c, by which the page table of a process goes back to the page pool.
-- - Process: proc/process.c. process_exit uses the page pool; process_join is modelled up to the
--   point where it returns or gives up the processor, and join_round is one round of its loop.
-- - Queue: OSM/Assignments/Third_Assignment/queue/queue.c.
-- - Libc: lib/libc.c.
-- - Bitmap: lib/bitmap.c, with clear_bit and set_bit for the branches of bitmap_set, and
--   scan_word and scan_words for the loops of bitmap_findnset.
-- - Stalloc: kernel/stalloc.c.
-- - Tfs: fs/tfs.c with fs/tfs_constants.h. Tfs.Exec is the way its functions run, with a return
--   in the middle; the operations are in Tfs.Init, Tfs.Directory, Tfs.Volume, Tfs.Create,
--   Tfs.Remove and Tfs.Transfer, each with the loops of the code as functions of their own.
--   Tfs.Transfer.File tells what a file is, as bytes.
-- - Vfs: fs/vfs.c. The filesystems are an interface, the record Filesystem for fs_struct, that
--   Vfs.Driver fills with the trivial filesystem. Names has the path names, Mounts and Files the
--   operations, Calls all of them as one function, except vfs_init, vfs_deinit and
--   vfs_mount_all.
-- - Syscall: proc/syscall.c, with process_read and process_write of proc/process.c. The data
--   type Syscall has the system calls with their arguments as syscall_entry converts them,
--   syscall_of the numbers that they have, and Answer the ways in which a call ends.
-- - Pipeline: ARK/G3/sim.c, a simulator of a MIPS pipeline that stands on its own, with a
--   function for each stage; control is interp_control on the register after the second stage.
--
-- State and steps: an operation is a function from the state to an Outcome of the new state.
-- Every operation of the kernel disables interrupts and takes a spinlock for its whole length,
-- so it is one atomic step and the locks are left out; an operation on a volume holds the lock
-- of the volume in the same way, and one of the virtual filesystem is taken as a step too, with
-- vfs_ops for the others that are on their way; the interrupt flag is kept where the code tests
-- it. A call that switches threads ends its step there: the state is the one in which the next
-- thread runs.
--
-- Bounds: a search of a queue of threads has 32 rounds. That is enough on well-formed queues,
-- since the idle thread is on none and a list of distinct thread numbers below 32 without it has
-- at most 31 entries. The loop of sleepq_wake_all has as many. The loops of the filesystems run
-- over tables of fixed size, and those of tfs_read and tfs_write over as many blocks as they
-- transfer; a volume has at most 4096 blocks, as tfs_init sees to, and words of a block are
-- big-endian, as on the machine. queue_heap_up and queue_heap_down have as many rounds as the
-- index or the count, and the functions on strings and the simulator take the number of rounds
-- as an argument, with what is enough as a hypothesis where a result is stated. Addresses are
-- natural numbers; what is stored in 32 or 64 bits has its wrap-around written out.
--
-- Parameters: whether realloc succeeds; the disk of a volume, as the content of its blocks and a
-- test that tells which requests fail, where a failed request leaves block and buffer as they
-- are; whether a semaphore and a page are to be had in tfs_init; in the virtual filesystem what
-- the mounted filesystems do. Of the two machines, the one with MIPS is meant: there
-- vm_destroy_pagetable gives a page back, where that for x86_64 does nothing. In the system
-- calls, process_spawn, the terminal, what a pointer of the process stands for, and the test
-- IN_USERLAND are parameters.
--
-- Not modelled: devices and their interrupts, the rest of the page pool and paging, the entry to
-- userland and other assembly code, formatted output, the search of a disk for partitions with a
-- filesystem, process_spawn and the loading of executables, the earlier simulators under ARK,
-- the compiler, and the earlier assignments, which hold older copies of the kernel.
pub mod Base
pub mod Kernel
pub mod Pages
pub mod Process
pub mod Queue
pub mod Libc
pub mod Bitmap
pub mod Stalloc
pub mod Pipeline
pub mod Tfs
pub mod Vfs
pub mod Syscall
