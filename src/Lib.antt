-- ===== src/Lib.antt =====
-- The OrangePi RV2 kernel of lab6/OrangePiVer: a RISC-V kernel with a memory allocator, a task queue,
-- timers, threads, page tables, user processes, signals, an archive of programs and a UART console.
--
-- The memory allocator (Src/mm.c) has the modules Mm.*. Mm/State.antt has the state: each field of
-- `struct page` is a function of the page's pointer, and the pointers are numbers, 0 for NULL,
-- 1 + order for &free_area[order] and 14 + idx for &frame_array[idx]; physical memory is a function
-- from addresses to words. Mm/PageList.antt has the circular lists (list_add, list_del,
-- add_free_block, remove_free_block), Mm/Buddy.antt alloc_pages and free_pages, Mm/Chunk.antt the
-- pools of small chunks with allocate and free. The children of each have the lemmas:
-- Mm/PageList/Links.antt the invariant of the lists, Mm/Buddy/Wf.antt that of the buddy system (blocks
-- are aligned, in range and disjoint, and each is either on the list of its order or given out),
-- Mm/Buddy/Frames.antt the set of free frames, Mm/Buddy/Split.antt and Alloc.antt the allocation,
-- Mm/Buddy/Merge.antt and Free.antt the release, Mm/Chunk/Sizes.antt and Lists.antt the pools. An
-- address is a 64-bit number with its wrap-around, and Placed (Mm/Buddy/Alloc.antt) says that the
-- managed memory lies in the linear mapping. The split and merge loops recurse on the number of
-- orders left, size_to_order has fuel 63 and the refill loop 257, which is one more than a page has
-- chunks. Mm/Init.antt has the managed range (set_range) and the part of mm_init that makes the free
-- lists (init_buddy), with the number of frames as fuel. Mm/Startup.antt has startup_alloc and the reserved ranges before the buddy system is up, with
-- one step of fuel more than there are ranges. The block that free_pages gets must be given out: the
-- code has no test for that.
--
-- The task queue (Src/task.c) has the modules Task.*: the pool of 64 nodes, the free list and the
-- queue are in Task.antt, with pointers 1 + i for &task_pool[i]; a signed priority p is the number
-- p + 2 ^ 31. The callbacks are a parameter, a function on the rest of the machine and the queue.
-- Task/Queue.antt has add_task, Task/Init.antt task_init, Task/Run.antt run_pending_task.
--
-- The software timers (Src/timer.c) have the modules Timer.*: Timer.antt has the state, the pool of 32
-- nodes with pointers 1 + i for &timer_pool[i], and the operations; read_time is an argument of each,
-- sbi_set_timer sets the field `programmed`, and the callbacks are a parameter. Expired timers go to
-- add_task of Task.antt. Timer/Queue.antt has add_timer, Timer/Tick.antt the scheduler tick,
-- Timer/Init.antt timer_init and the clock, Timer/Expire.antt and its child the interrupt handler.
--
-- The UART driver (Src/uart.c) has the modules Uart.*: Uart.antt the state and the operations, with the
-- device as the list of characters that it delivers until LSR_DR is clear and the number of times that
-- LSR_TDRQ is set; Uart/Ring.antt the ring buffers as queues, Uart/Print.antt the numbers that uart_dec
-- prints (fuel 20, the digits of a 64-bit number), Uart/Hex.antt those of uart_hex, which hextoi reads.
--
-- The string functions (Src/kstring.c) are in KString.antt, where a string is the list of its
-- characters before the NUL (for hextoi, of those that it reads), and KString/Laws.antt says what the
-- comparisons decide.
--
-- The threads (Src/thread.c, Inc/thread.h) have the modules Thread.*: Thread/State.antt has the table of
-- 16 tasks, with pointers 1 + i for &tasks[i], and Thread.antt the operations. switch_to sets the field
-- `current`, the register tp; what an operation does after it has given the CPU up belongs to the
-- task that gets the CPU back. The fuel of runq_remove and pick_next is 16, the size of the table, and
-- the queue has no task twice. Thread/Queue.antt has the circular queue, Thread/Wf.antt the
-- invariant, Thread/Schedule.antt schedule, Thread/Change.antt what joins and leaves the queue,
-- Thread/Create.antt, Exit.antt, Find.antt, Kill.antt and Reap.antt the operations, Thread/Reach.antt
-- their sequences. The addresses of the stacks and of the code are a parameter (Layout).
--
-- The signals (Src/signal.c) have the modules Signal.*: Signal.antt the operations on the same table,
-- where a trap frame (Inc/trap.h) is a function from the number of its word; Signal/Cases.antt the
-- branches of the delivery and the return from the handler, Signal/Deliver.antt what becomes of the
-- task, Signal/Drain.antt deliveries in a row, Signal/Send.antt sys_kill.
--
-- The user processes (Src/user.c) have the modules User.*: User.antt has user_process_create and
-- user_fork, with memory as a function from addresses to bytes and the register sstatus as an argument;
-- User/Copy.antt the byte loops, User/Create.antt and Fork.antt the two operations. The user stacks are
-- those of the Layout, one for each entry of the table.
--
-- The page tables (Src/vm.c, Inc/vm.h) have the modules Vm.*: Vm.antt the operations, on the memory of
-- the allocator; Vm/Entry.antt the entries, Vm/Memory.antt the writes, Vm/Tree.antt the tree of the
-- tables of a process and the translation of the CPU on it, Vm/Walk.antt, Grow.antt and Descend.antt
-- walk_create, Vm/Put.antt, Page.antt and Map.antt map_pages_to, Vm/Create.antt vm_create_user_pgd,
-- Vm/Spares.antt and Apart.antt what they leave alone. A translation of a user address is one below
-- 2^38; the kernel half of a table is that of early_pgd, an argument of vm_create_user_pgd.
-- Vm/Early.antt has setup_vm, map_mmio_2m_window and drop_identity_map, on static tables whose addresses
-- are a parameter: Early/Tables.antt and Window.antt the loops, Early/Translate.antt the translation of
-- the CPU, Early/Map.antt and Drop.antt the two operations. vm_user_mapping_test is not modelled.
--
-- The cpio archive (Src/initrd.c) and the loading of a program from it (Src/user_loader.c) have the
-- modules Initrd.*: Initrd.antt the operations, with memory as a function from addresses to bytes, the
-- range of the archive as arguments, and as fuel the length of the archive, since each entry has a
-- header; Initrd/Entry.antt the entries, Initrd/Find.antt the search, Initrd/Bytes.antt and
-- Places.antt the bytes and numbers of an entry, Initrd/Locate.antt what the search finds in them,
-- Initrd/Load.antt the loading.
-- initrd_list and initrd_cat, which print, are not modelled. Exec.antt has the operations of Src/user.c
-- on such programs: Exec/Run.antt user_process_create_from_file, Exec/Replace.antt user_exec_current.
--
-- The modules Prelude.* have what the parts share: Boolean tests, linked lists that end with NULL
-- (Chains), insertion into them (Inserts), pools (Ranges) and the bitwise or (Bits).
--
-- Not modelled: console output, the interrupt flags (each operation runs to its end, as the code
-- does with interrupts off), memory_reserve of mm.c,
-- assembly, and the parts of the kernel that no module names. The directories lab1 to lab5 have
-- earlier versions of the same kernel, and ex* the exercises.
pub mod Prelude
pub mod Mm
pub mod Task
pub mod Timer
pub mod Uart
pub mod KString
pub mod Thread
pub mod Signal
pub mod User
pub mod Vm
pub mod Initrd
pub mod Exec
