-- ===== src/User/FdTable.antt =====
-- The descriptor table of the file system server, src/userspace/vfs/fd_table.c. A file is its
-- address, 0 for NULL; a descriptor that is negative as an `int` is a word beyond the table.
pub mod Slots
mod Tests
use exyde.Common.{
  ℕ, zero, suc, ◌+◌, List, [], ◌∷◌, Option, some, none, leb, ◌==◌, if◌then◌else◌, update, fill,
}

abbrev pub vfs_fd_max : ℕ
vfs_fd_max = 64

abbrev pub File : Type 0
File = ℕ

-- `vfs_fd_table_t`.
pub record FdTable : Type 0 where
  pub files : ℕ → File

unfoldable pub vfs_fd_init : FdTable → FdTable
vfs_fd_init t = record { files = fill vfs_fd_max 0 0 t.files }

-- The loop of `vfs_fd_alloc` from `i` on; none is EMFILE.
unfoldable pub fd_alloc_loop : ℕ → ℕ → File → FdTable → Option ℕ × FdTable
fd_alloc_loop zero i f t = (none, t)
fd_alloc_loop (suc n) i f t =
    let rest = fd_alloc_loop n (i + 1) f t in
    if t.files i == 0 then (some i, record { files = update t.files i f }) else rest

unfoldable pub vfs_fd_alloc : FdTable → File → Option ℕ × FdTable
vfs_fd_alloc t f = fd_alloc_loop vfs_fd_max 0 f t

unfoldable pub vfs_fd_get : FdTable → ℕ → File
vfs_fd_get t fd = if leb vfs_fd_max fd then 0 else t.files fd

-- The files that `vfs_close` is called for, and the table; none is EBADF.
unfoldable pub vfs_fd_close : FdTable → ℕ → Option (List File × FdTable)
vfs_fd_close t fd =
    if leb vfs_fd_max fd
    then none
    else if t.files fd == 0
    then none
    else some (t.files fd ∷ [], record { files = update t.files fd 0 })
