-- ===== src/Lib.antt =====
-- Verification of the OSM re-exam repository: the binary heaps of heap/ and the kernel of buenos/.
--
-- The program has two parts. heap/ is a pointer-based binary max-heap that grows along the path
-- given by the binary digits of the new node's number. buenos/ is a kernel for a MIPS machine. Its
-- boot allocator (kmalloc) hands out memory until the page pool takes over the rest; the pool keeps a
-- bitmap of the pages in use, and the virtual memory takes its page tables from it and maps
-- pages into them; the TLB miss handler reads those tables. The process table has a slot per process,
-- whose heap grows through the pool and the page table, and whose end gives its page table back.
-- Threads run the processes: the scheduler keeps the ready ones in a list that is linked through the
-- thread table, the sleep queue keeps those that wait for a resource in lists of the same
-- kind, and a semaphore puts a thread into the sleep queue and wakes it again. The virtual file system
-- names the mounted volumes and the open files and passes every call to the driver of a volume. The
-- driver of buenos is the trivial file system, which keeps an allocation bitmap, a directory and the
-- inodes of its files in the blocks of a disk. A user program reaches the open files of its process, and
-- the console, by the handles of the input and output routines; its own library cuts the memory that it
-- gets from the kernel into blocks. Below the file system the disk driver serves requests in a queue, and
-- the console driver keeps what is typed and written in two ring buffers. The network queues received
-- frames until a thread hands them to the sockets. The kernel prints through its own formatting routine.
--
-- Files and the code they are about:
--   Prelude.antt, Prelude/: shared names; Tests the Boolean tests, Lists the arrays, Int C's int,
--     Result the outcome of kernel code, Bits the binary digits.
--   Heap.antt, Heap/: heap/sequential-heap.c (and the same routines in heap/concurrent-heap.c).
--   Bitmap.antt, Bitmap/: buenos/lib/bitmap.c.
--   Kmalloc.antt, Kmalloc/: buenos/kernel/kmalloc.c.
--   Pagepool.antt, Pagepool/: buenos/vm/pagepool.c.
--   Vm.antt, Vm/: buenos/vm/vm.c, buenos/vm/tlb.c, buenos/vm/pagetable.h, buenos/vm/tlb.h.
--   Process.antt, Process/: the process table, open files and heaps of buenos/proc/process.c.
--   Thread.antt, Thread/: buenos/kernel/thread.c and buenos/kernel/scheduler.c.
--   Sleepq.antt, Sleepq/: buenos/kernel/sleepq.c.
--   Semaphore.antt, Semaphore/: buenos/kernel/semaphore.c.
--   Libc.antt, Libc/: the routines on strings and memory of buenos/lib/libc.c.
--   Vfs.antt, Vfs/: buenos/fs/vfs.c; Calls holds its operations.
--   Tfs.antt, Tfs/: buenos/fs/tfs.c; Files holds the operations on the directory, Transfer the reads
--     and writes of a file, Driver the function pointers that join both file systems.
--   Io.antt, Io/: buenos/proc/io.c.
--   UserSem.antt, UserSem/: buenos/proc/usr_sem.c.
--   UserAlloc.antt, UserAlloc/: malloc and free of buenos/tests/lib.c.
--   Xprintf.antt, Xprintf/: buenos/lib/xprintf.c. print_loop runs on fuel, which is spent on the characters
--     of the format; one more than its length is enough for the formats that end.
--   Tty.antt, Tty/: the buffers of buenos/drivers/tty.c; Queue what a buffer holds, Calls one call, Steps
--     sequences of them.
--   Disk.antt, Disk/: buenos/drivers/disk.c and buenos/drivers/disksched.c; Calls the
--     interrupt, Submit the submission of a request.
--   Pop.antt, Pop/: the queue of frames of buenos/net/pop.c; Push the search for a slot, Place where a
--     frame is put, Service and Choice what the service thread chooses, Handover its action, Bound the sockets
--     of the entries, Rounds a round of it.
--   Sockets.antt, Sockets/: buenos/net/socket.c; Ports the search for a free port. The search runs on fuel,
--     one more than the number of sockets, which is enough.
--   Examples/: tests, and each theorem at an input that meets its hypotheses.
-- A function has the name it has in the code. Its loops are functions of their own beside it.
--
-- How code is translated. A global variable is an argument and a result of the functions that use
-- it. A routine that holds a spinlock, or runs with interrupts off, is one step. A `Result` is `ok` with
-- the outcome, `panic` where the kernel stops itself (KERNEL_PANIC, KERNEL_ASSERT), or `fault` for an
-- access outside an array, which the C code does not check. Values of type int are integers without
-- bound, unsigned values are natural numbers that are reduced modulo 2 ^ 32 where the code computes
-- with them. Loops over arrays are recursion on a list or on the number of rounds left, which is the
-- bound of the C loop. The insertion into the heap recurs on the tree,
-- since each step of the code goes one level down. The walks through the lists of the sleep queue,
-- which are loops over links, have the number of threads as a bound; lists of different threads are
-- not longer than that, and `fault` stands for a walk that does not end.
--
-- The virtual file system sees a driver, and the trivial file system a disk, only through the function
-- pointers of `fs_t` and `gbd_t`, which are records of functions here, over a state that is left open.
-- The laws of a disk that the reads and writes rely on are those of `IsDisk`. A call of either
-- file system is one step: the semaphores of their tables are not modelled. Memory that a routine gets
-- as a pointer is the list of bytes from there on. A block as words has the most
-- significant byte first. What a device answers while a driver runs is an argument, and what is written
-- to its ports is a result; sequences of calls and interrupts are step relations. Where the formatting of
-- text meets an argument of the wrong kind, the outcome is `undefined`.
--
-- Not modelled: how devices work, the locks of the drivers and of the network, the assembler, and the rest of the kernel,
-- which the manifest lists. The end of a process stops before its thread ends. Waiting is not scheduled: a join sees a sequence of tables, one for each
-- time that it holds the lock.
pub mod Prelude
pub mod Bitmap
pub mod Kmalloc
pub mod Pagepool
pub mod Heap
pub mod Vm
pub mod Process
pub mod Thread
pub mod Sleepq
pub mod Semaphore
pub mod Libc
pub mod Vfs
pub mod Tfs
pub mod Io
pub mod UserSem
pub mod UserAlloc
pub mod Xprintf
pub mod Tty
pub mod Disk
pub mod Pop
pub mod Sockets
pub mod Examples
