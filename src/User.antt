-- ===== src/User.antt =====
-- The user space servers and libraries: src/userspace.
pub mod FdTable
pub mod Ramfs
pub mod Vfs
pub mod String
pub mod Number
pub mod Sort
pub mod Env
