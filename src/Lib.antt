-- ===== src/Lib.antt =====
-- oslearn is a small 32-bit kernel for the PC. This library models the parts of its C code that
-- keep state and decide: the bitmap and the pools of free pages, the string routines, the linked
-- lists, the scheduler, semaphores and locks, the ring of characters behind the keyboard, the
-- keyboard's interrupt handler, the descriptors, the page tables and what allocates pages, the
-- creation of threads and of processes, the console, the system calls, the programming of the
-- interrupt controllers and of the clock, the threads that echo what is typed, and the start of the
-- kernel, which puts all of these together.
--
-- Which file models which part:
--   Bitmap      lib/kernel/bitmap.c. `init`, `scan_test`, `scan`, `put` are `bitmap_init`,
--               `bitmap_scan_test`, `bitmap_scan`, `bitmap_set`; `skip_full`, `first_free` and
--               `scan_run` are the three loops of the scan.
--   Str         lib/string.c, over a flat memory of bytes.
--   Interrupt   kernel/interrupt.c: the interrupt flag in Status, in Handlers `exception_init`,
--               `register_handler` and `general_intr_handler`, in Pic `pic_init`, in Idt `idt_init`.
--   Port        lib/kernel/io.h: `outb`, as the list of the bytes written.
--   Timer       device/timer.c: `frequency_set` and `timer_init`.
--   LinkedList  lib/kernel/list.c, over the `prev` and `next` fields in memory.
--   Thread      thread/thread.c and the handler of device/timer.c.
--   Sync        thread/sync.c.
--   IoQueue     device/ioqueue.c.
--   Keyboard    device/keyboard.c.
--   Machine     the processor's paging, which kernel/memory.c programs: a memory of words, the walk
--               through directory and table, and loads and stores by virtual address.
--   Memory      kernel/memory.c: `palloc`, `vaddr_get` (both branches by way of `reserve`). Layout
--               has the numbers that `mem_pool_init` computes (`divide`), Init its effect, Paging `pte_ptr`, `pde_ptr`,
--               `page_table_add` (`check_table` and `make_table` are its branches) and `addr_v2p`,
--               Alloc `malloc_page` and `get_kernel_pages`, Locked `get_user_pages` and `get_a_page`.
--   Descriptor  kernel/global.h, userprog/tss.c, and the gates of kernel/interrupt.c.
--   Spawn       thread/thread.c: `allocate_pid`, `init_thread` (`erase` and `init_task`),
--               `thread_create`, `thread_start`, `make_main_thread`, `thread_init`.
--   Process     userprog/process.c: `create_page_dir`, `page_dir_activate`, `process_activate`,
--               `create_user_vaddr_bitmap`; in Execute `process_execute` and `start_process`.
--   Syscall     userprog/syscall-init.c, lib/user/syscall.c, and what `syscall_handler` of
--               kernel/kernel.S does to eax and calls.
--   Console     device/console.c.
--   Main        kernel/main.c: a round of the echoing threads (`k_thread` for `k_thread_a`).
--   Boot        kernel/init.c `init_all`, `mem_init` of kernel/memory.c, and `main` of kernel/main.c up
--               to its last loop (`main_threads`, `main_first` and `main_second` are its rest).
--   Base        shared helpers: Boolean tests, arrays, words, outcomes, finite tables.
--
-- How the parts interact. A call is a function from the state to `Run`: it is `ok`, it ends in the
-- endless loop of a failed assertion (`panic`; the Makefile builds with assertions on), it accesses
-- memory that it must not (`fault`), or its fuel is out (`stuck`). The scheduler keeps the state
-- `Kernel`, the tasks by address, the ready queue, the running task and the interrupt flag; Sync
-- calls `thread_block` and `thread_unblock` on it, IoQueue calls Sync and Thread, and Keyboard calls
-- IoQueue. A call that gives up the processor returns at the switch, in the state that the next task
-- finds, with a value (`waiting`, `waits_lock`, `waits_turn`) that says where it goes on; the
-- continuation is a function of its own (`sema_resume`, `lock_resume`, `resume_get`, `resume_put`).
-- Thread, Sync and IoQueue take a queue of threads as the list of its members, which is what
-- LinkedList shows the pointers to stand for. Memory takes its pages by way of Bitmap and maps them by
-- way of Machine; its state `Space` is the pools and the machine. Spawn joins the kernel and the
-- space in one state, `System`, and gets a page from Memory and a pid under a lock of Sync; Process
-- gets a directory from Memory and hands it to the machine and to the `tss` of Descriptor; Console
-- and the calls of Memory/Locked are clients of Sync, and Main is one of IoQueue and Console. Boot runs
-- the initialisation of every part on one state: Memory/Init makes the `Space`, Spawn/Main the first
-- thread, and the invariant `IsSystem` of Spawn/Fresh is what each start of a thread and of a process
-- needs and keeps. The interrupt controllers and the counters are hardware: Interrupt/Pic and
-- Timer/Rate take them as records of their documented behaviour, `Controller` and `Counters`.
--
-- Bounds. Addresses are natural numbers and NULL is 0; 32-bit arithmetic wraps where the code
-- computes sizes and counts (`u32`), and pointer arithmetic is taken to stay in the address space.
-- `char` is signed, as for the compiler that the Makefile calls. Only loops that look for the end of
-- a string or of a list take fuel; the theorems ask for one round more than there are elements, and
-- `first_free` takes nine rounds for the eight bits of a byte.
--
-- Entries of page tables change from absent to present only, so that no translation that the
-- processor keeps is stale. `memset` and `memcpy` of pages go by words. A `task_struct` stands in the
-- scheduler's table under its address and not in the words of its page, of which the frame for the
-- first switch uses others.
--
-- The table of the entry points stands in kernel.S with 48 entries and is read with 129; the theorems
-- on the start take what stands behind it as its further words. What `put_int` shows of a number and
-- where the linker puts functions and tables are arguments.
--
-- Not modelled: `kernel_thread`, which only opens the interrupts and calls its function; of
-- `start_process` the jump to `intr_exit`; of `syscall_handler` the registers that it saves, the
-- arguments that it pushes and the bytes for the controllers; `insw` and `outsw`, which nothing uses; `show_memory_size`
-- and what else prints; the boot code, the entry points and the switch of stacks, which are assembly.
pub mod Base
pub mod Bitmap
pub mod Boot
pub mod Console
pub mod Descriptor
pub mod Interrupt
pub mod IoQueue
pub mod Keyboard
pub mod LinkedList
pub mod Machine
pub mod Main
pub mod Memory
pub mod Port
pub mod Process
pub mod Spawn
pub mod Str
pub mod Sync
pub mod Syscall
pub mod Thread
pub mod Timer
