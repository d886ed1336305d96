-- ===== src/Lib.antt =====
-- The kernel of labcode/lab8: its lists, memory, scheduler, synchronisation and open files, and two
-- allocators of labcode/lab2.
--
-- The parts, by the file that models each, with the paths of the sources:
--   Links        labcode/lab8/libs/list.h: the doubly linked rings, as two maps of pointers. Its
--                children say what the operations do to the sequence of a ring.
--   Pmm          labcode/lab8/kern/mm/default_pmm.c: the free list of physical pages, with the
--                descriptors and the links as maps. Pmm/FirstFit is its specification on blocks.
--                Pmm/BestFit is the allocation of labcode/lab2/kern/mm/best_fit_pmm.c.
--   Buddy        labcode/lab2/kern/mm/buddy_system_pmm.c: the buddy system, with a list of pages for
--                each order. Buddy/Valid is what well-formed lists are, Buddy/Held what a block is that
--                was taken off them; Buddy/Alloc and Buddy/Total are about the allocation, Buddy/Join,
--                Buddy/Finish and Buddy/Release about the release, Buddy/RoundTrip about both.
--   Paging       labcode/lab8/kern/mm/pmm.c: the page tables of three levels, as functions from the
--                indices of a table to entries, with the reference counts of pages. Paging/Ranges are
--                the operations on ranges of addresses. Paging/Leads holds the laws of the page
--                allocator, which Paging/Supply fills with the first fit of Pmm.
--   SkewHeap     labcode/lab8/libs/skew_heap.h: the heap, as a tree.
--   Proc         labcode/lab8/kern/process/proc.h: what the scheduler reads of a process. Proc/Pid is
--                get_pid of kern/process/proc.c.
--   Sched        labcode/lab8/kern/schedule/sched.c and proc_run of kern/process/proc.c.
--                Sched/Invariant holds the laws of a scheduling class, which Sched/RoundRobin
--                (default_sched.c) fills; Sched/Stride is default_sched_stride.c, Sched/Timer the
--                timer list of sched.c. Sched/Family is the part of kern/process/proc.c that links,
--                finds, kills and delays processes; Sched/Exit is how a process ends and
--                Sched/Reap how its parent waits for it.
--   Vmm          labcode/lab8/kern/mm/vmm.c: the sorted list of areas with its cache.
--   Wait         labcode/lab8/kern/sync/wait.c; Wait/Semaphore is sem.c.
--   File         labcode/lab8/kern/fs/file.c: the table of open files; File/Calls are its calls.
--   Memory       labcode/lab8/libs/string.c: strings and blocks of bytes.
--                Memory/Compare is about strcmp. Memory/Number is strtol, and printnum of
--                labcode/lab8/libs/printfmt.c.
--                Memory/Buffer is labcode/lab8/kern/fs/iobuf.c.
--   Bitmap       labcode/lab8/kern/fs/sfs/bitmap.c: the bitmap of free blocks.
--   Sfs          labcode/lab8/kern/fs/sfs/sfs_io.c, and the functions on blocks of sfs_inode.c: the
--                disk as the bytes of its blocks. The rest is of sfs_inode.c: Sfs/Map is the map from
--                the blocks of a file to those of the disk, with Sfs/Map/Lookup on well-formed files,
--                Sfs/Map/Alloc, Sfs/Map/Grow and Sfs/Map/Shrink on adding and taking off blocks;
--                Sfs/Dir is the entries of a directory; Sfs/Transfer is the reading and writing of a
--                file, and Sfs/Transfer/Resize the change of its length. Sfs/Transfer/Parts is about
--                the loop over the parts of a transfer, Whole, Read, Written, Write and ReadBack
--                beside it about what it does to a file.
--   Prelude      shared names, tests, lists, and the runs that assertions and loops may stop.
--   Tests        runs at concrete inputs.
--
-- The page allocator and the heap stand on the two data structures; the scheduler calls a class,
-- which is a record of functions as in sched.h; semaphores wake processes through the scheduler;
-- open files call the operations of the virtual file system, which are a record too; a file of the
-- simple file system takes its blocks from the bitmap and moves its bytes by a buffer of a transfer.
--
-- Integers are natural numbers, with the wrap of 32 or 64 bits written out where the code may
-- reach it. Left out, as of numbers that the machine does not reach, are the wrap of nr_free + 1
-- in the best fit and that of a block number times the size of a block in read_block. A failed
-- assertion is `panic`, and so is what the language leaves undefined: a signed `long` that
-- overflows in strtol, and an order above MAX_ORDER, 15, in buddy_system_init_memmap, for which
-- free_area has no list. Loops that may not end take a number of rounds: a walk of the free list
-- has npage + 2, more than the pages that can be linked, with the one that is inserted;
-- user_mem_check has one more than there are areas, since each round passes an area; wakeup_queue
-- has the length of the queue; strings have a number that the caller gives, above their length;
-- the loop of do_exit and the walk of do_wait have one above the number of children; get_pid has 2
-- * MAX_PID + 1, since each new walk of the list tries a new candidate; order_up and order_down
-- have 64, the bits of a number; a range of addresses has as many as it has bytes.
--
-- Interrupts are off in the functions of the scheduler and of the wait queues, so each is a step
-- of its own. A call that blocks is cut at schedule(): what it does before, and what it does
-- later. The switch of registers, devices, traps, the virtual file system, and the paths, inodes
-- and super block of the simple file system are not modelled, nor are monitors, the creation of
-- processes, and the other allocators of the earlier labs. A process that ends gives back its
-- memory and its files by entries of a list; the stack and the control block that do_wait frees
-- are left out. The page allocator under the page tables is a record of two functions with laws;
-- the reference counts there are those of the page tables alone. The TLB is left out. The parent
-- pointers of the heap are left out: an entry is removed where the tree has it.
pub mod Bitmap
pub mod Buddy
pub mod File
pub mod Links
pub mod Memory
pub mod Paging
pub mod Pmm
pub mod Prelude
pub mod Proc
pub mod Sched
pub mod Sfs
pub mod SkewHeap
pub mod Tests
pub mod Vmm
pub mod Wait
