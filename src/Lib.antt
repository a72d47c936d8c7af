-- ===== src/Lib.antt =====
-- mjos, an operating system kernel for x86_64: the parts of its C code that keep the kernel's own
-- data structures, and what is proved of them.
--
-- The parts and their files.
--   * ListHead (kernel/include/list.h): the intrusive circular list that the scheduler and most
--     other parts use. The entries are a function from addresses to the two links; a write is `put`.
--     Each operation makes the source's writes in the source's order and reads links again where the
--     source does. ListHead/Ring says when entries form a ring, ListHead/Insert, Unlink and Find
--     treat the operations, ListHead/Pair two rings over the same entries.
--   * Pages (kernel/memory/page.c and kernel/include/memory/page.h, `pglist_*`): lists of page
--     frames linked by frame numbers in `page_arr`, with head and tail. Pages/Links has two
--     invariants: IsPageList, linked both ways, and IsQueue, which reads the list from its tail and
--     is what `pglist_pop_tail` keeps.
--   * Frames (kernel/memory/page.c, `frame_alloc` to `frames_release`): the allocator over the lists
--     of free direct-mapped frames, free-mapped frames and occupied frames, with its counters.
--     Frames/Zones and Frames/Steps have the invariant and the steps, Frames/Alloc and
--     Frames/Release the operations.
--   * Paging (kernel/memory/page.c, `page_translate` to `normal_page_release`, and the direct map of
--     kernel/include/boot.h): the page tables as the words of physical memory. Paging/Search is
--     `find_virtual_addr`, Paging/Alloc the kernel pages and the normal pages,
--     Paging/Sbrk `do_sbrk` (kernel/memory/sbrk.c). Paging/Walk follows an
--     address through its tables, Paging/Mapping treats entries and translation together,
--     Paging/Kernel pages and frames, and Paging/Cursor, Trail, Unmapped and First the search.
--   * Slab (kernel/memory/slab.c): caches of objects over the page lists and the kernel pages. A slab's
--     free objects are a chain of offsets; Slab/Objects and Slab/Serve follow the chain and the list of
--     slabs through `cache_obj_alloc` and `cache_obj_release`, Slab/Release has the whole release.
--   * Kmalloc (kernel/memory/kmalloc.c, kernel/libc/stdlib/malloc.c): the caches for thirteen sizes, and
--     the size in front of each object. Kmalloc/Classes treats the choice of the cache, Kmalloc/Free
--     allocation and release together.
--   * Scheduler (kernel/process/scheduler.c): threads on the ring of running threads or on the ring
--     of blocked threads, both over the same entries. An entry is named by its thread.
--   * Spin (kernel/spin.c, kernel/include/spin.h, kernel/arch/x86_64/atomic.S): the ticket lock and,
--     as a step relation, the threads that take and give it. Spin/Queue has the invariant, a queue of
--     threads in the order of their tickets; Spin/Exclusion the theorems about every interleaving.
--   * Semaphore (kernel/spin.c, `do_passeren` and `do_verhoog`): a counter over the scheduler.
--     Semaphore/Balance says that a negative counter counts the threads that wait.
--   * EarlyHeap (kernel/memory/early_kmalloc.c): the bump allocator that serves until the page tables
--     stand.
--   * CString (kernel/libc/string/string.c, strcmp.c, strchr.c, memcmp.c, and
--     kernel/libc/stdlib/memmove.c): memory is a function from addresses to bytes. CString/Strtol is
--     `strtol` (kernel/libc/stdlib/strtol.c).
--   * Keyboard (kernel/arch/x86_64/dev/ps2_keyboard.c, kernel/include/dev/keyboard.h): the decoder of
--     scan codes, `digest_scan_code`, as a function of its state and a byte, and the loop of the
--     interrupt handler over the bytes that wait. What is sent is collected in a list. Keyboard/Keys
--     has the tables, Keyboard/Decode treats one byte, Keyboard/Words streams of whole keys.
--   * Printf (kernel/misc/vsnprintf.c, of which kernel/libc/stdio/vsnprintf.c is a copy): `vsnprintf`
--     over one memory for format, strings and buffer. Printf/Spec parses a conversion, Printf/Number
--     is `fmt_number`, Printf/Format the loop. Printf/Frame and Printf/Safety follow the writes,
--     Printf/Digits and Printf/Decimal what a number is printed as.
--   * MemoryMap (kernel/memory/page.c, `page_init` up to `rebuild_kernel_page`): which frames of the boot
--     loader's memory map go on which list. MemoryMap/Listed treats one frame, MemoryMap/Scan the
--     whole map.
--   * Console (kernel/arch/x86_64/dev/console.c and kernel/arch/x86_64/include/console.h): the text
--     screen. Console/Scroll says what happens to each cell, Console/Paper is the abstract console, paper
--     without end of which 25 rows are shown, and Console/Refines, Bytes and Text relate the two.
--   * Tick (kernel/misc/tick.c, kernel/include/tick.h): the count of ticks and the queue of watch dogs over
--     the intrusive list. Tick/Clock treats the clock as the kernel runs it, with the NULL links that the
--     queue starts with: nothing calls `list_init` for it, and nothing starts a watch dog.
--   * Ipc (kernel/process/ipc.c, `get_process` of kernel/process/process.c): messages through the shared memory
--     of a process and its two locks. Ipc/Message treats a message, Ipc/Empty the empty one;
--     Ipc/Service is `do_print_msg` and `do_func_register` of kernel/syscall/syscall.c.
--   * Pids (kernel/process/process.c, kernel/include/base.h): the bitmap of process ids. Pids/Bits treats one
--     bit, Pids/First the search.
--   * Base and Chain: shared names, lists over the native numbers, and chains of links.
--
-- How they interact. The frame allocator calls the page lists, and its invariant contains theirs;
-- the kernel pages take their frames from it and enter them in the page tables;
-- slabs are made of kernel pages, and `kmalloc` of slabs;
-- the scheduler calls the intrusive list, and its invariant is a pair of rings; the semaphores
-- call `thread_wait` and `thread_resume`, and their invariant contains the scheduler's;
-- `page_init` takes its table from the early allocator and sets up the invariant of the frame
-- allocator; the watch dogs, and the search for a process, use the intrusive list, messages
-- the ticket lock.
--
-- Bounds and fuel. `list_find`, `thread_resume` and the string functions that run to a zero take
-- fuel: more rounds than the ring or the text is long are enough, and so are two rounds more than the
-- pages of an object for `early_kmalloc`. `pglist_free_all` takes fuel too. A failing
-- assertion is `none`. Counters are C's signed integers without overflow, but for the ticks of watch
-- dogs, which have 32 bits. Frame numbers and addresses are natural numbers; `NOPAGE` is 2 ^ 32 - 1. The
-- addresses of `early_kmalloc` wrap around in 64 bits.
--
-- `vsnprintf` need not return, so that a run gives, with the state it has reached, whether it
-- returned, and what is said of the state holds for every amount of fuel. `fmt_number` returns, given
-- room for its digits and 64 rounds. The write position counts on where the pointer wraps around 2 ^ 64,
-- and the number scan and the length of a string have the 32 bits of an `int`.
--
-- A read behind a table of the keyboard driver is `none`.
--
-- `page_table_set_entry` calls itself to map a table that it puts in; its fuel bounds these calls, and one
-- is enough where every table is present. `find_virtual_addr` needs 2 ^ 36 rounds at most, the number
-- of pages that 48 bits address.
--
-- The counters of the ticket lock are 32 bits wide and wrap around; 2 ^ 32 threads is the bound that
-- keeps their tickets apart.
--
-- `wdog_start` and `tick_proc` take fuel; one round is enough for `tick_proc` while the queue has NULL links,
-- and as many rounds as it reads the count for `tick_delay`. What a watch dog does is a parameter, a
-- function on the queue and on anything else. A message is sent and read without other threads in
-- between, and a call that has to wait is `none`. `memcpy` has a size of 16 bits there,
-- in `krealloc` and in `vsnprintf`.
--
-- The offsets in free objects, the sizes in front of objects in use, the words of page tables and the
-- bytes of strings are separate maps: a program that writes behind an object's end, or to a free
-- object, is outside the model.
--
-- Not modelled: the switch of stacks and registers in `schedule`, log lines, the ports of
-- the keyboard, interrupts and the lock around each operation on the watch dogs, the wrappers around
-- `vsnprintf`, and every part of the kernel that has no file above (`rebuild_kernel_page`, page tables of
-- processes, creation and end of processes and threads, devices, file systems, boot code, the C++ runtime,
-- and copies of other projects).
pub mod Base
pub mod Chain
pub mod ListHead
pub mod Pages
pub mod Frames
pub mod Scheduler
pub mod CString
pub mod Spin
pub mod Semaphore
pub mod EarlyHeap
pub mod Keyboard
pub mod Printf
pub mod Paging
pub mod Slab
pub mod Kmalloc
pub mod MemoryMap
pub mod Console
pub mod Tick
pub mod Ipc
pub mod Pids
