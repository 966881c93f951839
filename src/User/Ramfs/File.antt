-- ===== src/User/Ramfs/File.antt =====
-- The operations of src/userspace/vfs/ramfs.c on a file. What `malloc` returns is an argument: the
-- garbage in the new block, or none.
use exyde.Common.{
  ℕ, zero, suc, ◌+◌, ◌-◌, ◌*◌, ◌%◌, ◌^◌, min, Bool, true, not, Option, some, none, leb, ltb, ◌==◌,
  if◌then◌else◌, copy_bytes, fill,
}
use exyde.Kernel.Errno.{Result, ok, err, eisdir, einval, enomem}
use exyde.User.Ramfs.{Node, vfs_type_reg}

-- `ramfs_read(vn, buf, n, off)`: the count, and the buffer.
unfoldable pub ramfs_read : Node → (ℕ → ℕ) → ℕ → ℕ → Result ℕ × (ℕ → ℕ)
ramfs_read vn buf n off =
    let count = if ltb (vn.size - off) n then vn.size - off else n in
    if not (vn.type == vfs_type_reg)
    then (err eisdir, buf)
    else if leb vn.size off
    then (ok 0, buf)
    else (ok count, copy_bytes buf 0 vn.contents off count)

-- `while (newcap < need) { if (newcap > 1 << 62) fail; newcap *= 2; }`; none is the failure.
unfoldable pub grow_loop : ℕ → ℕ → ℕ → Option ℕ
grow_loop zero newcap need = none
grow_loop (suc fuel) newcap need =
    let rest = grow_loop fuel (newcap * 2 % 2 ^ 64) need in
    if leb need newcap then some newcap else if ltb (2 ^ 62) newcap then none else rest

-- The copy of the old contents to the new block, and the zeros up to `off`.
abbrev pub moved : Node → ℕ → ℕ → (ℕ → ℕ) → (ℕ → ℕ)
moved vn off newcap nd =
    fill (min off newcap - vn.size) vn.size 0 (copy_bytes nd 0 vn.contents 0 vn.size)

-- The node with its contents in the block that `malloc` returned, and in one of this capacity.
abbrev pub in_block : Node → ℕ → ℕ → Option (ℕ → ℕ) → Result Node
in_block vn off newcap none = err enomem
in_block vn off newcap (some nd) =
    ok (record vn { contents = moved vn off newcap nd; allocated = true; capacity = newcap })

abbrev pub in_capacity : (ℕ → Option (ℕ → ℕ)) → Node → ℕ → Option ℕ → Result Node
in_capacity malloc vn off none = err enomem
in_capacity malloc vn off (some newcap) = in_block vn off newcap (malloc newcap)

-- The part of `ramfs_write` that makes room for `need` bytes.
unfoldable pub make_room : (ℕ → Option (ℕ → ℕ)) → Node → ℕ → ℕ → Result Node
make_room malloc vn off need =
    if leb need vn.capacity
    then ok vn
    else in_capacity malloc vn off
        (grow_loop 64 (if vn.capacity == 0 then 64 else vn.capacity) need)

-- The part of it behind that.
abbrev pub put_bytes : Node → (ℕ → ℕ) → ℕ → ℕ → Node
put_bytes vn buf n off = record vn {
  contents = copy_bytes vn.contents off buf 0 n;
  size = if ltb vn.size (off + n) then off + n else vn.size;
}

abbrev pub written : Node → (ℕ → ℕ) → ℕ → ℕ → Result Node → Result ℕ × Node
written vn buf n off (err e) = (err e, vn)
written vn buf n off (ok vn') = (ok n, put_bytes vn' buf n off)

-- `ramfs_write(vn, buf, n, off)`: the count, and the node. The count is the 64-bit word of the `i64`,
-- which is negative from 2 ^ 63 on.
unfoldable pub ramfs_write : (ℕ → Option (ℕ → ℕ)) → Node → (ℕ → ℕ) → ℕ → ℕ → Result ℕ × Node
ramfs_write malloc vn buf n off =
    let need = (off + n) % 2 ^ 64 in
    if not (vn.type == vfs_type_reg)
    then (err eisdir, vn)
    else if n == 0
    then (ok 0, vn)
    else if ltb need off
    then (err einval, vn)
    else written vn buf n off (make_room malloc vn off need)

-- `ramfs_truncate(vn, size)`; the Boolean says if `calloc` succeeds.
unfoldable pub ramfs_truncate : Bool → Node → ℕ → Result ℕ × Node
ramfs_truncate got vn size =
    let old = if vn.allocated then min vn.size size else 0 in
    if not (vn.type == vfs_type_reg)
    then (err eisdir, vn)
    else if size == vn.size
    then (ok 0, vn)
    else if leb size vn.capacity
    then (ok 0, record vn { contents = fill (size - vn.size) vn.size 0 vn.contents; size = size })
    else if not got
    then (err enomem, vn)
    else (
      ok 0,
      record vn {
        contents = copy_bytes (λ i. 0) 0 vn.contents 0 old;
        allocated = true;
        capacity = size;
        size = size;
      },
    )
