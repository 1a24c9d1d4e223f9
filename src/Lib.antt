-- ===== src/Lib.antt =====
-- The Pintos kernel, pintos-main/ in the repository: its memory, its file system, its scheduler and
-- its processes. A path like threads/thread.c stands for pintos-main/threads/thread.c.
--
-- A user program runs as a process (userprog/process.c) in a thread (threads/thread.c). Its system
-- calls (userprog/syscall.c) check the pointers and fetch the arguments that it passes, and work on
-- files through its descriptors. A descriptor leads to an inode (filesys/inode.c), which names find
-- through the root directory (filesys/directory.c, filesys/filesys.c). Inodes and their data live in
-- sectors that the free map (filesys/free-map.c) hands out, as the page allocator (threads/palloc.c)
-- hands out pages; both keep a bitmap (lib/kernel/bitmap.c). The timer (devices/timer.c) drives the
-- scheduler and wakes the threads that sleep.
--
-- The files, and the code that they model:
--   Base         shared names: Boolean tests, lists, computations that may panic, sets of numbers
--   Bitmap       lib/kernel/bitmap.c. A word is a list of 32 Booleans, the lowest bit first.
--   FreeMap      filesys/free-map.c: free_map_allocate and free_map_release
--   Inode        filesys/inode.c: inode_read_at and inode_write_at, chunk by chunk
--   InodeTable   filesys/inode.c: the table of open inodes, inode_create, inode_open, inode_close,
--                inode_remove; and the state of the file system, FileSys
--   Directory    filesys/directory.c, filesys/filesys.c, and file_open of filesys/file.c
--   Palloc       threads/palloc.c: pages of the two pools
--   Malloc       threads/malloc.c: blocks and arenas as addresses
--   Vaddr        threads/vaddr.h, threads/pte.h
--   Pagedir      userprog/pagedir.c: the user pages of a process
--   Thread       threads/thread.c, and devices/timer.c's timer_sleep and timer_interrupt
--   Lock         threads/synch.c: semaphores of locks, and locks
--   Condition    threads/synch.c: condition variables
--   Intq         devices/intq.c: the queue of bytes of an input device
--   Lists        lib/kernel/list.c: elements as addresses with two pointers; the other files have
--                sequences where the source has lists
--   Hash         lib/kernel/hash.c: buckets as sequences of addresses
--   Text         lib/string.c
--   Arithmetic   lib/arithmetic.c: division of 64-bit numbers
--   Stdlib       lib/stdlib.c: sort and binary_search
--   Printf       lib/stdio.c: format_integer; lib/stdlib.c: atoi
--   Process      userprog/process.c: process_execute, process_wait, process_exit
--   Load         userprog/process.c: load, its checks of the headers
--   UserStack    userprog/process.c: setup_stack, install_page, push_args
--   Segment      userprog/process.c: validate_segment, load_segment
--   Syscall      userprog/syscall.c: descriptors, pointers, arguments; Syscall/Handler: the dispatch;
--                Syscall/Transfer: read and write, with file_read and file_write
--   Tests        the theorems at concrete inputs
-- A file X models the code; the files below X/ prove. Functions keep the names of the source; a
-- function with `_loop` or `_from` is the body of a loop, and one that takes what was found (open_found,
-- look_in, wait_for) is what the source does after a search.
--
-- State is passed on explicitly. A failed ASSERT, a PANIC and a lock that a thread acquires twice are
-- `none`. NULL and a result of -1 are `none` or false of the result, or the number itself where the
-- source returns a number. A word of 32 bits is a natural number below 2 ^ 32, and sums that can
-- wrap around are written with the remainder. The int `thread_sleep_time` is moved up by 2 ^ 31, so
-- that its order is that of natural numbers. A process's memory is a partial function from addresses
-- to bytes, a disk a function from sectors to bytes.
--
-- Whether an allocation succeeds is an input of the other files (Env, and the Booleans of the calls);
-- Malloc says when it does, with the pages that it gets and gives back as inputs and results.
-- The interrupt level is not modelled either: a function that runs with interrupts off is one
-- step. In Process the reads and writes under alive_count_lock are one step, and a thread that
-- blocks on a semaphore goes on in a function of its own, so that an order of steps of a
-- parent and its children is an order of calls. Lock has a step relation with a place for each
-- thread, and Thread one for the scheduler; Intq and Lock take one round of the loop of a
-- thread that waits as a step.
--
-- Fuel: the loops of Inode run for one round more than there are bytes, since each takes at least
-- one byte off; load_segment for one more than there are pages. Both are shown to be enough by the
-- theorems on their results. validate_string takes fuel from its caller, and every byte it passes
-- is below PHYS_BASE. The loop that rounds a number of buckets down to a power of 2 has the number
-- as its fuel, which each round makes smaller. The loop of heapify has one more round than there are
-- elements, since each round goes down to a child; that of binary_search has one more too, since each
-- makes the range smaller; malloc_init has one for each power of 2 from 16 to 2048, and a
-- number of 64 bits has fewer than 64 digits. All end within it.
--
-- Not modelled: the semaphores of readers and writers of an inode, sorting and reversing lists,
-- the kernel's own page directory and the TLB, the iterator of hash tables, the console's text,
-- the parsing of formats, interrupts, devices and assembly. The file of the root directory is a
-- list of slots, and its reads are taken to succeed; it has a fixed size, as the source never grows
-- a file.
pub mod Base
pub mod Bitmap
pub mod FreeMap
pub mod Inode
pub mod InodeTable
pub mod Directory
pub mod Palloc
pub mod Malloc
pub mod Vaddr
pub mod Pagedir
pub mod Arithmetic
pub mod Stdlib
pub mod Thread
pub mod Lock
pub mod Condition
pub mod Intq
pub mod Lists
pub mod Hash
pub mod Text
pub mod Printf
pub mod Process
pub mod Load
pub mod UserStack
pub mod Segment
pub mod Syscall
pub mod Tests
