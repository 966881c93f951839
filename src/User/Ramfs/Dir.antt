-- ===== src/User/Ramfs/Dir.antt =====
-- The references to nodes of src/userspace/vfs/vfs.c and the operations of ramfs.c on directories,
-- over the store of nodes. What `calloc` returns is an argument. The loops follow lists of nodes:
-- their fuel bounds the number of entries, and for a destruction the nodes below it.
use exyde.Common.{
  ℕ, zero, suc, ◌+◌, ◌-◌, ◌%◌, ◌^◌, Bool, true, false, not, ◌&&◌, List, [], ◌∷◌, Option, some, none,
  ltb, ◌==◌, if◌then◌else◌, update, take, length,
}
use exyde.Kernel.Chain.{Ptr, null}
use exyde.Kernel.Errno.{Result, ok, err, enoent, eexist, enomem, eisdir, enotdir, enotempty, erange}
use exyde.User.Ramfs.{Node, vfs_type_reg, vfs_type_dir}

-- The nodes, and the static variables of both files.
pub record Fs : Type 0 where
  pub nodes : Ptr → Node
  pub next_ino : ℕ
  pub root : Ptr

abbrev pub set_node : Fs → Ptr → Node → Fs
set_node s p n = record s { nodes = update s.nodes p n }

-- `xs_streq`.
abbrev pub same_name : List ℕ → List ℕ → Bool
same_name [] [] = true
same_name [] (b ∷ ys) = false
same_name (a ∷ xs) [] = false
same_name (a ∷ xs) (b ∷ ys) = (a == b) && same_name xs ys

unfoldable pub vnode_ref : Ptr → Fs → Fs
vnode_ref p s =
    let vn = s.nodes p in
    if p == null then s else set_node s p (record vn { refcount = (vn.refcount + 1) % 2 ^ 32 })

unfoldable mutual
  -- `vnode_unref`, which calls `ramfs_destroy` on the last reference.
  pub vnode_unref : ℕ → Ptr → Fs → Fs
  vnode_unref zero p s = s
  vnode_unref (suc n) p s =
      let vn = s.nodes p in
      let s₁ = set_node s p (record vn { refcount = vn.refcount - 1 }) in
      let s₂ = destroy_loop n vn.children s₁ in
      if p == null
      then s
      else if vn.refcount == 0
      then s
      else if not (vn.refcount == 1)
      then s₁
      else set_node s₂ p (record (s₂.nodes p) { live = false })

  -- The loop of `ramfs_destroy` from the child `c` on.
  pub destroy_loop : ℕ → Ptr → Fs → Fs
  destroy_loop zero c s = s
  destroy_loop (suc n) c s =
      let vn = s.nodes c in
      let s₁ = vnode_unref n c (set_node s c (record vn { next = null })) in
      let rest = destroy_loop n vn.next s₁ in if c == null then s else rest

-- `ramfs_new_node`: the node is NULL where `calloc` fails.
unfoldable pub ramfs_new_node : Option Ptr → ℕ → ℕ → Fs → Ptr × Fs
ramfs_new_node none type mode s = (null, s)
ramfs_new_node (some p) type mode s = (
  p,
  record s {
    nodes = update s.nodes p (record {
      ino = s.next_ino;
      type = type;
      mode = mode;
      refcount = 1;
      size = 0;
      parent = null;
      name = [];
      allocated = false;
      contents = λ i. 0;
      capacity = 0;
      children = null;
      next = null;
      live = true;
    });
    next_ino = s.next_ino + 1;
  },
)

unfoldable pub ramfs_create_root : Option Ptr → Fs → Ptr × Fs
ramfs_create_root got s =
    let (p, s₁) = ramfs_new_node got vfs_type_dir 493 s in
    if p == null then (null, s₁) else (p, set_node s₁ p (record (s₁.nodes p) { parent = p }))

-- The loop of `ramfs_find` from `c` on.
unfoldable pub find_loop : ℕ → Fs → Ptr → List ℕ → Ptr
find_loop zero s c name = null
find_loop (suc n) s c name =
    let rest = find_loop n s (s.nodes c).next name in
    if c == null then null else if same_name (s.nodes c).name name then c else rest

abbrev pub ramfs_find : ℕ → Fs → Ptr → List ℕ → Ptr
ramfs_find fuel s dir name = find_loop fuel s (s.nodes dir).children name

unfoldable pub ramfs_lookup : ℕ → Ptr → List ℕ → Fs → Result Ptr × Fs
ramfs_lookup fuel dir name s =
    let c = ramfs_find fuel s dir name in
    if c == null then (err enoent, s) else (ok c, vnode_ref c s)

-- The new node at the head of the list of children, with its name cut to 255 bytes.
abbrev pub add_child : Ptr → Ptr → List ℕ → Fs → Fs
add_child dir p name s =
    let s₁ =
      set_node s p (record (s.nodes p) {
        name = take 255 name;
        parent = dir;
        next = (s.nodes dir).children;
      }) in
    set_node s₁ dir (record (s₁.nodes dir) { children = p })

unfoldable pub ramfs_create : ℕ → Option Ptr → Ptr → List ℕ → ℕ → Fs → Result Ptr × Fs
ramfs_create fuel got dir name mode s =
    let (p, s₁) = ramfs_new_node got vfs_type_reg mode s in
    if not (ramfs_find fuel s dir name == null)
    then (err eexist, s)
    else if p == null
    then (err enomem, s₁)
    else (ok p, vnode_ref p (add_child dir p name s₁))

unfoldable pub ramfs_mkdir : ℕ → Option Ptr → Ptr → List ℕ → ℕ → Fs → Result ℕ × Fs
ramfs_mkdir fuel got dir name mode s =
    let (p, s₁) = ramfs_new_node got vfs_type_dir mode s in
    if not (ramfs_find fuel s dir name == null)
    then (err eexist, s)
    else if p == null
    then (err enomem, s₁)
    else (ok 0, add_child dir p name s₁)

-- `*pp = c->next; c->next = NULL; vnode_unref(c)`, where `pp` is in `prev` or, for NULL, in `dir`.
unfoldable pub remove_child : ℕ → Ptr → Ptr → Ptr → Fs → Fs
remove_child fuel dir prev c s =
    let next = (s.nodes c).next in
    let s₁ =
      if prev == null
      then set_node s dir (record (s.nodes dir) { children = next })
      else set_node s prev (record (s.nodes prev) { next = next }) in
    vnode_unref fuel c (set_node s₁ c (record (s₁.nodes c) { next = null }))

-- The loops of `ramfs_unlink` and `ramfs_rmdir` from `c` on, with `prev` before it.
unfoldable pub unlink_loop : ℕ → ℕ → Ptr → Ptr → Ptr → List ℕ → Fs → Result ℕ × Fs
unlink_loop fuel zero dir prev c name s = (err enoent, s)
unlink_loop fuel (suc n) dir prev c name s =
    let vn = s.nodes c in
    let rest = unlink_loop fuel n dir c vn.next name s in
    if c == null
    then (err enoent, s)
    else if not (same_name vn.name name)
    then rest
    else if vn.type == vfs_type_dir
    then (err eisdir, s)
    else (ok 0, remove_child fuel dir prev c s)

unfoldable pub ramfs_unlink : ℕ → Ptr → List ℕ → Fs → Result ℕ × Fs
ramfs_unlink fuel dir name s = unlink_loop fuel fuel dir null (s.nodes dir).children name s

unfoldable pub rmdir_loop : ℕ → ℕ → Ptr → Ptr → Ptr → List ℕ → Fs → Result ℕ × Fs
rmdir_loop fuel zero dir prev c name s = (err enoent, s)
rmdir_loop fuel (suc n) dir prev c name s =
    let vn = s.nodes c in
    let rest = rmdir_loop fuel n dir c vn.next name s in
    if c == null
    then (err enoent, s)
    else if not (same_name vn.name name)
    then rest
    else if not (vn.type == vfs_type_dir)
    then (err enotdir, s)
    else if not (vn.children == null)
    then (err enotempty, s)
    else (ok 0, remove_child fuel dir prev c s)

unfoldable pub ramfs_rmdir : ℕ → Ptr → List ℕ → Fs → Result ℕ × Fs
ramfs_rmdir fuel dir name s = rmdir_loop fuel fuel dir null (s.nodes dir).children name s

-- The loop of `ramfs_readdir` from the entry `c` with the number `i`: the name that is copied out.
unfoldable pub readdir_loop : ℕ → Fs → Ptr → ℕ → ℕ → ℕ → Result (List ℕ)
readdir_loop zero s c i index n = err enoent
readdir_loop (suc k) s c i index n =
    let vn = s.nodes c in
    let rest = readdir_loop k s vn.next ((i + 1) % 2 ^ 32) index n in
    if c == null
    then err enoent
    else if not (i == index)
    then rest
    else if ltb n (length vn.name + 1)
    then err erange
    else ok vn.name

unfoldable pub ramfs_readdir : ℕ → Ptr → ℕ → ℕ → Fs → Result (List ℕ)
ramfs_readdir fuel dir index n s = readdir_loop fuel s (s.nodes dir).children 0 index n
