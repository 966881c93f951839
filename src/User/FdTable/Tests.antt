-- ===== src/User/FdTable/Tests.antt =====
-- A table with the descriptors 0 and 2 in use.
use exyde.Common.{◌≡◌, refl, some, update}
use exyde.User.FdTable.{FdTable, vfs_fd_alloc, fd_alloc_loop}
use exyde.User.FdTable.Slots.{Allocated, alloc-Allocated}

abbrev two_files : FdTable
two_files = record { files = update (update (λ i. 0) 0 700) 2 900 }

takes_the_gap : (vfs_fd_alloc two_files 800).0 ≡ some 1
unfolding vfs_fd_alloc fd_alloc_loop
takes_the_gap = refl

alloc-Allocated_example : Allocated two_files 800 0 64 (vfs_fd_alloc two_files 800)
alloc-Allocated_example = alloc-Allocated two_files 800
