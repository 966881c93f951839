-- ===== src/Kernel.antt =====
-- The kernel: src/kernel/core and the headers of src/kernel/include/exyde.
pub mod Errno
pub mod Heap
pub mod Vmm
pub mod Uaccess
pub mod Elf
pub mod Extable
pub mod Handle
pub mod Memmap
pub mod Pmm
pub mod Chain
pub mod Sched
pub mod Waitq
pub mod Channel
pub mod Semaphore
pub mod Mutex
