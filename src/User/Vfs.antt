-- ===== src/User/Vfs.antt =====
-- The paths and open files of src/userspace/vfs/vfs.c over the memory file system, whose operations
-- table has every function. A path is the list of its bytes before the NUL.
pub mod Refs
pub mod Resolve
pub mod Files
pub mod Transfer
mod Tests
use exyde.Common.{
  ℕ, zero, suc, ◌+◌, ◌-◌, ◌%◌, ◌^◌, Bool, true, false, not, ◌&&◌, ◌||◌, List, [], ◌∷◌, ◌++◌, Option,
  some, none, leb, ltb, ◌==◌, if◌then◌else◌, length, bit_and, take, drop,
}
use exyde.Kernel.Chain.{Ptr, null}
use exyde.Kernel.Errno.{
  Result, ok, err, Errno, enoent, eexist, enomem, eisdir, enotdir, einval, enodev, ebadf,
  enametoolong,
}
use exyde.User.Ramfs.{Node, vfs_type_reg, vfs_type_dir}
use exyde.User.Ramfs.Dir.{
  Fs, set_node, vnode_ref, vnode_unref, ramfs_lookup, ramfs_create, ramfs_mkdir, ramfs_unlink,
  ramfs_rmdir,
}

abbrev pub vfs_name_max : ℕ
vfs_name_max = 255

abbrev pub vfs_path_max : ℕ
vfs_path_max = 1024

abbrev pub slash : ℕ
slash = 47

abbrev pub dot : ℕ
dot = 46

-- `while (*p == '/') ++p;`
abbrev pub skip_slashes : List ℕ → List ℕ
skip_slashes [] = []
skip_slashes (x ∷ xs) = if x == slash then skip_slashes xs else x ∷ xs

-- The bytes up to the next slash, and those behind them.
abbrev pub component : List ℕ → List ℕ × List ℕ
component [] = ([], [])
component (x ∷ xs) =
    let (name, rest) = component xs in if x == slash then ([], x ∷ xs) else (x ∷ name, rest)

abbrev pub is_dot : List ℕ → Bool
is_dot (x ∷ []) = x == dot
is_dot _ = false

abbrev pub is_dot_dot : List ℕ → Bool
is_dot_dot (x ∷ y ∷ []) = (x == dot) && (y == dot)
is_dot_dot _ = false

-- The failure of a step, which drops the reference to the current node.
abbrev pub after_lookup : ℕ → Ptr → Result Ptr × Fs → Result Ptr × Fs
after_lookup fuel cur (r, s) = (r, vnode_unref fuel cur s)

-- One component of the loop of `resolve_from`.
unfoldable pub walk_step : ℕ → Ptr → List ℕ → Fs → Result Ptr × Fs
walk_step fuel cur name s =
    let vn = s.nodes cur in
    let par = if vn.parent == null then cur else vn.parent in
    if is_dot name
    then (ok cur, s)
    else if is_dot_dot name
    then (if par == cur then (ok cur, s) else (ok par, vnode_unref fuel cur (vnode_ref par s)))
    else if not (vn.type == vfs_type_dir)
    then (err enotdir, vnode_unref fuel cur s)
    else after_lookup fuel cur (ramfs_lookup fuel cur name s)

abbrev pub and_then :
    (Ptr → Fs → Option (Result Ptr × Fs)) → Result Ptr × Fs → Option (Result Ptr × Fs)
and_then f (err e, s) = some (err e, s)
and_then f (ok p, s) = f p s

-- The loop of `resolve_from`; none is the end of its fuel, which bounds the number of components.
unfoldable pub resolve_loop : ℕ → ℕ → Ptr → List ℕ → Fs → Option (Result Ptr × Fs)
resolve_loop fuel zero cur path s = none
resolve_loop fuel (suc n) cur path s =
    let p = skip_slashes path in
    let (name, rest) = component p in
    let next = and_then (λ c s'. resolve_loop fuel n c rest s') (walk_step fuel cur name s) in
    if length p == 0
    then some (ok cur, s)
    else if ltb vfs_name_max (length name)
    then some (err enametoolong, vnode_unref fuel cur s)
    else next

unfoldable pub resolve_from : ℕ → Ptr → List ℕ → Fs → Option (Result Ptr × Fs)
resolve_from fuel start path s =
    resolve_loop fuel (suc (length path)) start path (vnode_ref start s)

abbrev pub starts_with_slash : List ℕ → Bool
starts_with_slash [] = false
starts_with_slash (x ∷ xs) = x == slash

unfoldable pub vfs_resolve : ℕ → List ℕ → Fs → Option (Result Ptr × Fs)
vfs_resolve fuel path s =
    if s.root == null
    then some (err enodev, s)
    else if not (starts_with_slash path)
    then some (err einval, s)
    else resolve_from fuel s.root path s

unfoldable pub vfs_mount_root : ℕ → Ptr → Fs → Fs
vfs_mount_root fuel root s =
    let s₁ = if s.root == null then s else vnode_unref fuel s.root s in
    let s₂ = record s₁ { root = root } in
    if root == null then s₂ else set_node s₂ root (record (s₂.nodes root) { parent = root })

-- `while (i > 0 && path[i - 1] != '/') --i`, as the bytes from `i` on: `best` are those behind the
-- last slash so far.
abbrev pub behind_slash : List ℕ → List ℕ → List ℕ
behind_slash best [] = best
behind_slash best (x ∷ xs) = behind_slash (if x == slash then xs else best) xs

-- `split_parent`: the name, and the directory.
unfoldable pub split_parent : ℕ → List ℕ → Fs → List ℕ × Option (Result Ptr × Fs)
split_parent fuel path s =
    let len = length path in
    let name = behind_slash path path in
    let nlen = length name in
    let i = len - nlen in
    let dir = if i == 0 then slash ∷ [] else take i path in
    if (len == 0) || ltb vfs_path_max len
    then ([], some (err enametoolong, s))
    else if nlen == 0
    then ([], some (err einval, s))
    else if ltb vfs_name_max nlen
    then ([], some (err enametoolong, s))
    else (name, vfs_resolve fuel dir s)

-- An operation on the directory of a path, which must be one; its reference is dropped.
abbrev pub drop_parent : {A : Type 0} → ℕ → Ptr → Result A × Fs → Option (Result A × Fs)
drop_parent fuel parent (r, s) = some (r, vnode_unref fuel parent s)

abbrev pub in_parent :
    {A : Type 0}
    → ℕ
    → (Ptr → Fs → Result A × Fs)
    → Option (Result Ptr × Fs)
    → Option (Result A × Fs)
in_parent fuel op none = none
in_parent fuel op (some (err e, s)) = some (err e, s)
in_parent fuel op (some (ok parent, s)) =
    if not ((s.nodes parent).type == vfs_type_dir)
    then drop_parent fuel parent (err enotdir, s)
    else drop_parent fuel parent (op parent s)

unfoldable pub vfs_mkdir : ℕ → Option Ptr → List ℕ → ℕ → Fs → Option (Result ℕ × Fs)
vfs_mkdir fuel got path mode s =
    let (name, r) = split_parent fuel path s in
    in_parent fuel (λ parent. ramfs_mkdir fuel got parent name mode) r

unfoldable pub vfs_unlink : ℕ → List ℕ → Fs → Option (Result ℕ × Fs)
vfs_unlink fuel path s =
    let (name, r) = split_parent fuel path s in
    in_parent fuel (λ parent. ramfs_unlink fuel parent name) r

unfoldable pub vfs_rmdir : ℕ → List ℕ → Fs → Option (Result ℕ × Fs)
vfs_rmdir fuel path s =
    let (name, r) = split_parent fuel path s in
    in_parent fuel (λ parent. ramfs_rmdir fuel parent name) r
