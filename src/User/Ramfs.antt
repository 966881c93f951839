-- ===== src/User/Ramfs.antt =====
-- The nodes of the memory file system, src/userspace/vfs/ramfs.c with the `vnode_t` that each
-- embeds. A name is the list of its bytes before the NUL.
pub mod File
pub mod Bytes
pub mod Write
pub mod Dir
mod Tests
use exyde.Common.{ℕ, Bool, List}
use exyde.Kernel.Chain.{Ptr}

abbrev pub vfs_type_reg : ℕ
vfs_type_reg = 1

abbrev pub vfs_type_dir : ℕ
vfs_type_dir = 2

-- `ramfs_node_t`; `allocated` says that `data` is not NULL. A node that has been freed is not `live`.
pub record Node : Type 0 where
  pub ino : ℕ
  pub type : ℕ
  pub mode : ℕ
  pub refcount : ℕ
  pub size : ℕ
  pub parent : Ptr
  pub name : List ℕ
  pub allocated : Bool
  pub contents : ℕ → ℕ
  pub capacity : ℕ
  pub children : Ptr
  pub next : Ptr
  pub live : Bool
