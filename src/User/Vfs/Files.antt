-- ===== src/User/Vfs/Files.antt =====
-- The open files of src/userspace/vfs/vfs.c. An `i64` is its 64-bit word.
use exyde.Common.{
  ℕ, ◌+◌, ◌-◌, ◌%◌, ◌^◌, Bool, true, false, not, ◌&&◌, List, Option, some, none, leb, ltb, ◌==◌,
  if◌then◌else◌, bit_and,
}
use exyde.Kernel.Chain.{Ptr}
use exyde.Kernel.Errno.{Result, ok, err, Errno, enoent, eexist, enomem, einval, ebadf}
use exyde.User.Ramfs.{Node, vfs_type_reg}
use exyde.User.Ramfs.File.{ramfs_read, ramfs_write, ramfs_truncate}
use exyde.User.Ramfs.Dir.{Fs, set_node, vnode_unref, ramfs_create}
use exyde.User.Vfs.{vfs_resolve, split_parent, in_parent}

-- `file_t`.
pub record OpenFile : Type 0 where
  pub vn : Ptr
  pub offset : ℕ
  pub flags : ℕ
  pub refcount : ℕ

abbrev pub vfs_o_rdonly : ℕ
vfs_o_rdonly = 0x0001

abbrev pub vfs_o_wronly : ℕ
vfs_o_wronly = 0x0002

abbrev pub vfs_o_rdwr : ℕ
vfs_o_rdwr = 0x0003

abbrev pub vfs_o_creat : ℕ
vfs_o_creat = 0x0100

abbrev pub vfs_o_excl : ℕ
vfs_o_excl = 0x0200

abbrev pub vfs_o_trunc : ℕ
vfs_o_trunc = 0x0400

abbrev pub vfs_o_append : ℕ
vfs_o_append = 0x0800

abbrev pub acc_read : ℕ → Bool
acc_read flags = not (bit_and flags vfs_o_rdwr == vfs_o_wronly)

abbrev pub acc_write : ℕ → Bool
acc_write flags = not (bit_and flags vfs_o_rdwr == vfs_o_rdonly)

abbrev pub has_flag : ℕ → ℕ → Bool
has_flag flags f = not (bit_and flags f == 0)

-- The new file, where `calloc` succeeds.
abbrev pub open_node : ℕ → Bool → ℕ → Ptr → Fs → Result OpenFile × Fs
open_node fuel got_file flags vn s =
    if not got_file
    then (err enomem, vnode_unref fuel vn s)
    else (ok (record { vn = vn; offset = 0; flags = flags; refcount = 1 }), s)

-- From the truncation on; to 0 bytes it needs no memory.
abbrev pub open_found : ℕ → Bool → ℕ → Ptr → Fs → Result OpenFile × Fs
open_found fuel got_file flags vn s =
    let n = s.nodes vn in
    let s₁ =
      if has_flag flags vfs_o_trunc && acc_write flags && (n.type == vfs_type_reg)
      then set_node s vn (ramfs_truncate false n 0).1
      else s in
    open_node fuel got_file flags vn s₁

abbrev pub open_created : ℕ → Bool → ℕ → Option (Result Ptr × Fs) → Option (Result OpenFile × Fs)
open_created fuel got_file flags none = none
open_created fuel got_file flags (some (err e, s)) = some (err e, s)
open_created fuel got_file flags (some (ok vn, s)) = some (open_found fuel got_file flags vn s)

abbrev pub is_enoent : Errno → Bool
is_enoent enoent = true
is_enoent _ = false

abbrev pub open_resolved :
    ℕ
    → Option Ptr
    → Bool
    → List ℕ
    → ℕ
    → ℕ
    → Option (Result Ptr × Fs)
    → Option (Result OpenFile × Fs)
open_resolved fuel got got_file path flags mode none = none
open_resolved fuel got got_file path flags mode (some (err e, s)) =
    let (name, r) = split_parent fuel path s in
    if is_enoent e && has_flag flags vfs_o_creat
    then open_created fuel got_file flags
        (in_parent fuel (λ parent. ramfs_create fuel got parent name mode) r)
    else some (err e, s)
open_resolved fuel got got_file path flags mode (some (ok vn, s)) =
    if has_flag flags vfs_o_creat && has_flag flags vfs_o_excl
    then some (err eexist, vnode_unref fuel vn s)
    else some (open_found fuel got_file flags vn s)

unfoldable pub vfs_open :
    ℕ → Option Ptr → Bool → List ℕ → ℕ → ℕ → Fs → Option (Result OpenFile × Fs)
vfs_open fuel got got_file path flags mode s =
    open_resolved fuel got got_file path flags mode (vfs_resolve fuel path s)

-- The file is none when it has been freed.
unfoldable pub vfs_close : ℕ → OpenFile → Fs → Option OpenFile × Fs
vfs_close fuel f s =
    if ltb 1 f.refcount
    then (some (record f { refcount = f.refcount - 1 }), s)
    else (none, vnode_unref fuel f.vn s)

-- `r > 0` on the word of an `i64`.
abbrev pub above_zero : ℕ → Bool
above_zero r = if r == 0 then false else ltb r (2 ^ 63)

abbrev pub advanced : OpenFile → ℕ → Result ℕ × (ℕ → ℕ) → Result ℕ × (ℕ → ℕ) × OpenFile
advanced f off (err e, b) = (err e, b, f)
advanced f off (ok r, b) =
    (ok r, b, if above_zero r then record f { offset = (off + r) % 2 ^ 64 } else f)

unfoldable pub vfs_read : OpenFile → Fs → (ℕ → ℕ) → ℕ → Result ℕ × (ℕ → ℕ) × OpenFile
vfs_read f s buf n =
    if not (acc_read f.flags)
    then (err ebadf, buf, f)
    else advanced f f.offset (ramfs_read (s.nodes f.vn) buf n f.offset)

abbrev pub wrote : OpenFile → ℕ → Fs → Result ℕ × Node → Result ℕ × OpenFile × Fs
wrote f off s (err e, n) = (err e, f, set_node s f.vn n)
wrote f off s (ok r, n) =
    (ok r, if above_zero r then record f { offset = (off + r) % 2 ^ 64 } else f, set_node s f.vn n)

unfoldable pub vfs_write :
    (ℕ → Option (ℕ → ℕ)) → OpenFile → Fs → (ℕ → ℕ) → ℕ → Result ℕ × OpenFile × Fs
vfs_write malloc f s buf n =
    let vn = s.nodes f.vn in
    let off = if has_flag f.flags vfs_o_append then vn.size else f.offset in
    if not (acc_write f.flags)
    then (err ebadf, f, s)
    else wrote f off s (ramfs_write malloc vn buf n off)

-- `whence` is an `int`; the offset and the result are words of signed numbers.
unfoldable pub vfs_seek : OpenFile → Fs → ℕ → ℕ → Result ℕ × OpenFile
vfs_seek f s off whence =
    let base = if whence == 0 then 0 else if whence == 1 then f.offset else (s.nodes f.vn).size in
    let new_off = (base + off) % 2 ^ 64 in
    if ltb 2 whence
    then (err einval, f)
    else if leb (2 ^ 63) new_off
    then (err einval, f)
    else (ok new_off, record f { offset = new_off })
