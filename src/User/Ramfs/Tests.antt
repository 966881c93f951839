-- ===== src/User/Ramfs/Tests.antt =====
-- A file of one byte in a block of 64 bytes, full of the byte 170 behind it.
use exyde.Common.{
  ℕ, ◌+◌, ◌-◌, ◌^◌, ◌<◌, ◌≤◌, ◌≡◌, refl, Bool, true, false, [], ◌∷◌, Option, some, none, arith,
  copy_loop, bytes, min,
}
use exyde.Kernel.Chain.{null}
use exyde.Kernel.Errno.{err, enomem}
use exyde.User.Ramfs.{Node, vfs_type_reg}
use exyde.User.Ramfs.File.{ramfs_write, make_room, grow_loop}
use exyde.User.Ramfs.Bytes.{IsFile}
use exyde.User.Ramfs.Write.{Written, write-Written}

abbrev one_byte : Node
one_byte = record {
  ino = 2;
  type = vfs_type_reg;
  mode = 420;
  refcount = 1;
  size = 1;
  parent = 5;
  name = 97 ∷ [];
  allocated = true;
  contents = λ i. 170;
  capacity = 64;
  children = null;
  next = null;
  live = true;
}

one_byte-IsFile : IsFile one_byte
one_byte-IsFile = record {
  regular = refl;
  fits = omega arith;
  word = omega arith;
  unallocated = λ e. cc;
}

abbrev malloc : ℕ → Option (ℕ → ℕ)
malloc n = some (λ i. 204)

-- The gap before the byte that is written keeps what the block held.
stale_gap :
    bytes (ramfs_write malloc one_byte (λ i. 7) 1 3).1.contents 0 4 ≡ 170 ∷ 170 ∷ 170 ∷ 7 ∷ []
unfolding ramfs_write make_room copy_loop
stale_gap = refl

-- In a new block it is zero.
zero_gap : bytes (ramfs_write malloc one_byte (λ i. 7) 1 66).1.contents 63 4 ≡ 0 ∷ 0 ∷ 0 ∷ 7 ∷ []
unfolding ramfs_write make_room copy_loop grow_loop exyde.Common.fill
zero_gap = refl

no_memory : (ramfs_write (λ n. none) one_byte (λ i. 7) 1 64).0 ≡ err enomem
unfolding ramfs_write make_room grow_loop
no_memory = refl

write-Written_example : Written one_byte (λ i. 7) 4 100 (ramfs_write malloc one_byte (λ i. 7) 4 100)
write-Written_example =
    write-Written malloc one_byte (λ i. 7) 4 100 one_byte-IsFile (omega arith) (omega arith)
