-- ===== src/Lib.antt =====
-- A model of the kernel of Weenix, and what it does right and wrong.
--
-- The kernel runs threads of processes, one at a time. What is modelled of it, by file:
--
-- - Sched (kernel/proc/sched.c): threads, their queues and the scheduler. A kernel is a record of
--   the threads and queues by address; each routine of sched.c is a function of its name, less
--   `sched_` and `ktqueue_`. The interrupts that come while the processor waits in sched_switch
--   are a list of handlers, and sched_switch goes on with the thread it has switched to.
-- - Mutex (kernel/proc/kmutex.c): mutexes on top of the scheduler. A routine that sleeps is cut in
--   two, `lock` and `lock_resume`; Mutex/Exclusion has the steps of a system whose threads take the
--   mutex with kmutex_lock only.
-- - Vmmap (kernel/vm/vmmap.c): address spaces as lists of areas. `visit` is one round of the loop
--   of vmmap_remove, `Walk` its place in the list; the changes of reference counts are logged.
-- - Pframe (kernel/mm/pframe.c): page frames, their lists, counters and hash chains.
-- - Pages (kernel/mm/page.c): the buddy allocator of pages. A group has its free lists and bit
--   maps by order; IsBuddy of Pages/Valid is what makes a group valid, and Pages/Blocks counts the
--   blocks that hold a page, so the free pages of a group are a set that allocation and freeing
--   change. Pages/Joined shows that freeing joins buddies.
-- - Slab (kernel/mm/slab.c): the slab allocator. A Cache is an allocator with its slabs and their
--   memory; IsCache of Slab/Valid names the objects that are free and those that are handed out.
--   Slab/Sizes has the sizes of slabs and buckets, Slab/Malloc kmalloc and kfree, and Slab/Reclaim
--   slab_allocators_reclaim, which Slab/Reclaim/Frees compares with a list of blocks to free.
-- - Files (kernel/fs/file.c, get_empty_fd of kernel/fs/open.c): open files and their reference
--   counts; Syscalls (kernel/fs/vfs_syscall.c): the calls on open descriptors, of the same names.
-- - Ramfs (kernel/fs/ramfs/ramfs.c; vref, vget and vput of kernel/fs/vnode.c): the RAM file system.
--   A vnode and its inode have the same number; what an inode holds is bytes, entries or a device.
--   Names has the operations on directories, Data those on bytes and listings, and IsCounted of
--   Names/Links the link counts, also in the course of an operation.
-- - Namev (kernel/fs/namev.c): the path walk over a record of the operations of a file system,
--   which Namev/OnRamfs fills with those of Ramfs; Namev/Parts compares it with a walk over a list
--   of names, and Counts of Namev/Refs says how the operations count references.
-- - Paths (kernel/fs/vfs_syscall.c): the system calls on paths, on top of Namev.
-- - Proc (kernel/proc/proc.c): process ids, creation and exit; Proc/Waitpid: do_waitpid, cut in
--   two where it sleeps.
-- - Links (kernel/include/util/list.h): circular lists as pointers in a heap, which represent the
--   sequences that the other files work with.
-- - Strings (kernel/util/string.c): strings as lists of bytes up to the end of their memory.
-- - Tokenizer (kernel/test/kshell/tokenizer.c): the tokens of a line of the kernel shell, for any
--   isspace.
-- - Keyboard (kernel/drivers/tty/keyboard.c): the interrupt handler of the keyboard.
-- - Prelude holds lists on native numbers, Boolean tests, and `Outcome`, the ways in which a
--   routine ends: it returns, an assertion or a null pointer stops the machine, it runs on for
--   ever, or it writes beyond its memory, after which nothing is said.
--
-- Structs are records, enums are data types, pointers to structs are numbers into a function from
-- addresses, and a null pointer is `none`. Fields of machine integers are bit patterns: the models
-- write out `% 2 ^ 32` where the code can wrap around, and compare with 2 ^ 31 where it tests a
-- sign. A KASSERT is `kassert`.
--
-- Fuel: sched_broadcast_on has one round more than the queue has threads, vmmap_remove two rounds
-- for each area, since each round passes one area and a split adds one, _proc_getid one for each
-- of the 65536 pids, dir_namev one round more than the path has characters, __page_join one round
-- for each order up to the last, the loop of _pagegroup_create one for each page, and
-- slab_obj_alloc two, since a new slab has a free object; the theorems about them show that this
-- is enough.
--
-- Parameters stand for what other parts give: the memory of new structs, the pages that page
-- frames and slabs get and what reclaiming slabs does, the operations of vnodes and memory
-- objects, and the interrupt handlers. In Files and Vmmap the calls of other parts, such as vput
-- and the page tables, are logged in their order.
--
-- Not modelled: the parts that need memory objects (vmmap_map, vmmap_read, vmmap_write,
-- pframe_get), the pageout daemon, do_open, do_link, do_rename, do_stat and do_getdent, vnodes
-- with resident pages or that are busy, the System V file system, the set-up of slab allocators,
-- disks and terminals, program loading, the user programs, and printing. Lengths of time, caches
-- and the contents of pages are left out.
pub mod Prelude
pub mod Links
pub mod Namev
pub mod Pages
pub mod Paths
pub mod Ramfs
pub mod Sched
pub mod Files
pub mod Keyboard
pub mod Mutex
pub mod Pframe
pub mod Proc
pub mod Slab
pub mod Strings
pub mod Syscalls
pub mod Tokenizer
pub mod Vmmap
