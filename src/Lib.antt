-- ===== src/Lib.antt =====
-- ArqvengerOS, a small kernel for the x86 with an ext2 driver and a C library of its own: a model of
-- its scheduling, of its page allocator and its heap, of the block cache and the ext2 allocator, of its
-- terminals with their screens, and of the library's routines on strings, numbers and formatted
-- output, with the theorems that make them correct.
--
-- The parts and the code that they follow:
--   SleepList     src/system/sleepList.c: the delta queue of sleeping processes. The parts
--                 below it say what the queue stands for (Times), how a timer is added (Add), what a
--                 tick does (Tick), how one is removed (Remove), when processes wake over many ticks
--                 (OnTime), and what a timer of no ticks does (Stuck).
--   ProcessQueue  src/system/processQueue.c: the queue of processes, also the scheduler's.
--   Scheduler     src/system/scheduler.c with the functions of src/system/process/table.c that block and
--                 unblock. Priority is src/system/scheduler/priorityScheduler.c, RoundRobin is
--                 src/system/scheduler/scheduler.c; a build links one of them as `choose_next`.
--   ProcessTable  src/system/process/table.c: the slots and their lookup (Lookup), and the cycle counters of
--                 src/system/scheduler.c.
--   Fifo          src/system/fifo.c: the byte buffer, what goes through it (Stream) and who is woken (Waking).
--   Keyboard      src/drivers/keyboard.c: the ring buffer of scan codes and its consumer.
--   Bitmap        src/bitmap.h.
--   Ext2          src/drivers/ext2: the state (internal.h), the reads and writes of blocks (internal.c)
--                 and of the tables (superblock.c, blockGroup.c); Ext2.Allocator is allocator.c, and
--                 Ext2.BlockMap the map of a file's blocks in inode.c, with the tree that it goes down (Tree);
--                 Ext2.DataBuffers is the buffers of data blocks there.
--   BlockCache    src/system/cache/cache.c: the cached pages of the disk. View and Flush are about the disk that
--                 the cache shows, Lru and Room about the list of chunks and eviction, Lookup and Find
--                 about `find_chunk`, and Parts, Read, Store and Write about `cache_read` and `cache_write`.
--   Screen        src/drivers/tty/output.c with src/drivers/video.c: the screen of a terminal, and its control
--                 sequences (Control). Mirror is about what the user sees, Text about plain text, Moves,
--                 Cursor and Runaway about the cursor, and Colors about the attribute.
--   Terminal      src/drivers/tty/input.c and tty.c, with the writers of output.c: the scan codes (Codes), the input
--                 buffer and its readers. Keys and Frame say what a scan code leaves alone; Typing, Reading and Line
--                 are about lines, Bounds and Full about the size of the buffer, Waking about the processes that
--                 wait, and Switch about the change of the terminal in front.
--   PageAllocator src/system/mm/allocator.c: the map of pages, the search for a run (FirstFit), single pages
--                 (Pages), and allocation (Allocation).
--   Heap          src/system/malloc/malloc.c: chunks, bins, allocation and freeing. Bins is about the search for a bin,
--                 Layout about the chunks in their memory, Listed about the chunks in the bins, Start about a new
--                 heap, Split, Exhausted and Allocation about `malloc`, Freeing and Merging about `free`, RoundTrip about
--                 both.
--   Strings       src/library/string.c, over a flat memory.
--   Numbers       src/library/stdlib.c and src/library/ctype.c: numbers from and to text.
--   Printing      src/library/stdio.c: `vfprintf`. Directives is about single directives, Rendering about formats.
--   Clock         src/drivers/rtc.c and src/library/time.c: the registers of the clock, dates and their
--                 text (Text).
--   Base          shared names, lists, bits, words and signed integers over the native numbers.
--
-- How they interact: the timer's interrupt calls `scheduler_tick`, which runs the sleep list down
-- and pushes each process that it wakes on the scheduler's queue; `scheduler_do` then calls
-- `choose_next`, which elects a process of the queue. A FIFO blocks its readers and writers and
-- unblocks them through the process table, which takes them off that queue and puts them on it. The
-- allocator finds free blocks through the bitmaps, one of which it keeps in a buffer. The ext2
-- driver reads and writes blocks through `cache_read` and `cache_write`. A terminal's keys go from
-- the keyboard's buffer through `process_scancode` into the input buffer, are echoed on the screen,
-- and wake a process that waits there; `tty_read` takes them out. The page allocator asks the cache
-- to give pages back when it finds none, which is not modelled. The heap takes the buffers that it
-- gets from the page allocator as an argument.
--
-- State is passed explicitly, and each operation is a function of the state. A list of nodes stands
-- for a linked list from its first node on, and a process is named by its pid. A C `int` is an
-- integer, and an `unsigned int` a number with its reduction by 2 ^ 32 written out; the deltas of
-- the sleep list and the accumulated priorities of the queue are taken to stay in the range of an
-- `int`, and `itoa` and `atoi` are the code on numbers that do not overflow there. A loop of
-- string.c or of the round-robin scheduler that ends only on what it reads takes fuel, `none` is a
-- loop that is still running, and the theorems give the fuel that is enough; 89 rounds, the number
-- of bins, are enough for the search for one, which is `none` when they run out, and ten rounds for
-- the ten digits of an `unsigned int`. On the screen `none` is a sequence whose numbers overflow or
-- whose characters do not fit their buffer, or a cell behind the end of the screen's buffer, in the
-- sleep list it is a timer at the end of a list, where the source reads through NULL, and at the
-- terminals such an echo or a reboot; in the heap it is an assertion that fails, and in formatted
-- output an argument of another type or an unfinished directive. The other loops are recursions on
-- their data or counters.
--
-- Not modelled: the pools that nodes are allocated from, the disk behind `read_block` and
-- `write_block`, which fail here only on a block number that is out of range, the clock's progress
-- during an operation of the block cache, which is taken as standing, an allocation of the cache's
-- chunks that fails or that enters the eviction again, and the assembly of the context switch. How
-- the compiler lays out the superblock and the group table is a parameter of the ext2 state. The
-- page map and the cache are not joined: `allocPages`, which has the cache evict chunks when it
-- finds no run, is not modelled beyond `find_pages`. The content of allocated memory and the check
-- of the heap (check_malloc), formatted input and the files behind the library's streams are not
-- modelled either. The other parts of the kernel, the drivers of disks and of the keyboard's leds,
-- and the shell are not modelled.
pub mod Base
pub mod SleepList
pub mod ProcessQueue
pub mod Scheduler
pub mod Bitmap
pub mod Ext2
pub mod Strings
pub mod Numbers
pub mod Clock
pub mod Fifo
pub mod Keyboard
pub mod ProcessTable
pub mod BlockCache
pub mod Screen
pub mod PageAllocator
pub mod Terminal
pub mod Heap
pub mod Printing
