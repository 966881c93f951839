-- ===== src/Lib.antt =====
-- exyde is a small microkernel with its user space servers. This library models the core of the
-- kernel, the file system server's files, paths and descriptors, and the strings, numbers and
-- environment of the user library, and proves what makes them correct.
--
-- The parts, and how they interact. At boot the memory map (src/kernel/core/memmap.c) is filled and
-- the page allocator (src/kernel/core/pmm.c) is built from it. The page tables
-- (src/kernel/arch/x86_64/mm/vmm.c) take their pages from it, and the kernel heap
-- (src/kernel/core/heap.c) grows by mapping pages. The scheduler
-- (src/kernel/core/sched.c) runs threads in rotation. Threads block on wait queues
-- (src/kernel/include/exyde/waitq.h), which the channels (src/kernel/core/channel.c) use for senders
-- and receivers, and the semaphores, mutexes and condition variables (src/kernel/core/semaphore.c,
-- mutex.c, condvar.c) for their waiters. A process reaches channels and other objects through its
-- handle table (src/kernel/core/handle.c), and channels carry capabilities from one table to
-- another. The file system server keeps its files in memory (src/userspace/vfs/ramfs.c), finds them
-- by path and opens them (vfs.c), and names the open ones by descriptor (fd_table.c). Every program
-- is linked with the user library (src/userspace/libc/string.c, stdlib.c, env.c).
--
-- The files. A module models the C file of its name, each C function as a definition of the same
-- name; the modules below it hold the proofs, named for what they prove, and its tests.
--   Kernel.Handle: handle.c and handle.h. The table is a record; a release callback is a call in
--     the result of the operation, as the callbacks are the kernel's object destructors.
--   Kernel.Memmap, Kernel.Pmm: memmap.c, and pmm.c with its two bitmaps as arrays of 64-bit words,
--     the masks and shifts as in the source.
--   Kernel.Heap: heap.c, with the headers as a function of the address and the bytes between them as
--     another. The proofs read the heap as a row of used and free blocks.
--   Kernel.Vmm: vmm.c and vmm.h, over the tables by the address of their page, with the page allocator
--     of Kernel.Pmm; Kernel.Vmm.Spaces has the making and the end of address spaces. The proofs read
--     one address space as a map from pages to addresses and flags.
--   Kernel.Uaccess: uaccess.c and uaccess.h, over the address spaces of Kernel.Vmm.
--   Kernel.Extable: extable.c.
--   Kernel.Elf: elf.c and elf.h, over Kernel.Vmm and Kernel.Uaccess.
--   Kernel.Chain: linked queues with a head and a tail pointer, over a store of nodes.
--   Kernel.Sched: sched.c and thread.h, over a store of threads. Interrupts are off in each
--     function, so each is one step; the switch of stacks is assembly and ends a step.
--     `reap_zombies` runs in the thread that resumes, as a step of its own.
--   Kernel.Waitq: waitq.h, with the two patterns in which the blocking primitives use it.
--   Kernel.Channel: channel.c and channel.h. A blocking call is one attempt, which its thread
--     repeats when it resumes: the loop of the source, cut where the thread is not running.
--   Kernel.Semaphore: semaphore.c. The `int` count is its 32-bit word.
--   Kernel.Mutex: mutex.c and condvar.c.
--   Kernel.Errno: the error numbers.
--   User.Ramfs: ramfs.c. User.Ramfs.File has the operations on a file, which change one node, and
--     User.Ramfs.Dir those on directories, with the reference counts of vfs.c, which change the
--     store of nodes. The list of a directory's children is linked through the nodes, as there.
--   User.Vfs: the paths of vfs.c; User.Vfs.Files: its open files. The table of operations that a
--     node points to has one implementation, ramfs.c, so its functions are called directly.
--   User.FdTable: the descriptor table of the server, fd_table.c.
--   User.String: string.c, over the one memory of a process: User.String.Memory, Length, Copy and
--     Search have the functions. A string is a list of bytes that stands in memory at an address.
--   User.Number, User.Sort: the conversions, the binary search and `qsort` of stdlib.c. Of `qsort`
--     there are tests and no theorem: it does not sort every array of nine elements or more.
--   User.Env: the environment, env.c, as an array of addresses of strings.
--   Common: lists, arrays as functions, bytes, bits of words, integers, and Boolean tests.
--
-- State and numbers. A pointer is a natural number, 0 for NULL, or an option where a function may
-- return NULL; an array is a function of the index. Words are natural numbers and the wrap at
-- 2 ^ 32 or 2 ^ 64 is written out where the source can reach it; the addresses of User.String do not
-- wrap. The loops over an array are structural recursion on the rounds left, with the number of
-- rounds that the source's bound gives. Loops that follow a list of threads or of nodes, or a string
-- to its NUL, have fuel: the number of zombies or of waiting threads, of entries in a directory, of
-- the bytes of a string and its NUL is enough, and the theorems ask for no more. The walk of a path
-- takes its fuel from the path's length, the doubling of a capacity 64 rounds, and the binary search
-- the number of elements. The loops over the free list have fuel for the blocks of the heap, one more
-- for an allocation, and the check of a range for its pages and three more. A destruction of a tree
-- of nodes has fuel for the nodes below it.
--
-- Parameters: whether an allocation succeeds, whether a page of the heap can be mapped (but
-- Kernel.Heap.Pages has the loop that asks pmm.c and vmm.c for them), what new memory holds and
-- where it is, the main thread of a process, the copies between a process and the kernel, which are
-- assembly, and the comparison of a key with an element are arguments of the definitions that need
-- them.
--
-- Not modelled: assembly and device registers, boot code, the printing of messages, the shell and
-- the other programs. The user heap, the system calls, the start of programs, the requests of the
-- server, `strerror`, and the rest of the user library are not modelled either.
pub mod Common
pub mod Kernel
pub mod User
