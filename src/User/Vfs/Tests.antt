-- ===== src/User/Vfs/Tests.antt =====
-- A root directory at 5 with one file at 9, which is named "a" and is empty.
use exyde.Common.{
  ℕ, ◌+◌, ◌≡◌, refl, Bool, true, false, [], ◌∷◌, List, Option, some, arith, bytes, ◌==◌,
  if◌then◌else◌, update, Bool-cases, inl, inr,
}
use exyde.Kernel.Chain.{Ptr, null, Chain}
use exyde.Kernel.Errno.{ok, err, enoent}
use exyde.User.Ramfs.{Node, vfs_type_reg, vfs_type_dir}
use exyde.User.Ramfs.Bytes.{IsFile}
use exyde.User.Ramfs.Dir.{Fs, find_loop}
use exyde.User.Vfs.{resolve_from}
use exyde.User.Vfs.Refs.{Tree, next_of}
use exyde.User.Vfs.Resolve.{walk, holding, resolve-holding}
use exyde.User.Vfs.Files.{OpenFile, vfs_read, vfs_write, vfs_seek, vfs_o_rdwr}
use exyde.User.Vfs.Transfer.{Wrote, vfs_write-Wrote, write-seek_read}

abbrev node : Bool → ℕ → ℕ → List ℕ → Ptr → Node
node live type refcount name children = record {
  ino = 2;
  type = type;
  mode = 420;
  refcount = refcount;
  size = 0;
  parent = 5;
  name = name;
  allocated = false;
  contents = λ i. 0;
  capacity = 0;
  children = children;
  next = null;
  live = live;
}

abbrev small_fs : Fs
small_fs = record {
  nodes =
      update (update (λ i. node false 0 0 [] null) 5 (node true vfs_type_dir 1 [] 9)) 9
        (node true vfs_type_reg 1 (97 ∷ []) null);
  next_ino = 3;
  root = 5;
}

abbrev small_kids : Ptr → List Ptr
small_kids p = if p == 5 then 9 ∷ [] else []

small_fs-Tree : Tree small_fs small_kids 2
small_fs-Tree = record {
  chain = λ d l. elim (Bool-cases (d == 5)) [
    | inl y ↦
        let e : 5 ≡ d = ground arith in
        coe 0 1 (k. Chain (next_of small_fs) (small_fs.nodes (e k)).children (small_kids (e k)))
          (refl, (λ z. omega arith), refl)
    | inr z ↦ rw (z, (let e : (5 == d) ≡ false = ground arith in e)) (ground arith)
  ];
  entries = λ d p l h. ground arith;
  parents = λ p l h. ground arith;
  counted = λ p l. ground arith;
  small = λ p. ground arith;
  null_dead = refl;
  few = λ d l. ground arith;
}

-- "/a" and "//./a" lead to the file, "/b" to an error.
finds_the_file : walk 2 small_fs 6 5 (47 ∷ 47 ∷ 46 ∷ 47 ∷ 97 ∷ []) ≡ ok 9
unfolding walk find_loop
finds_the_file = refl

finds_nothing : walk 2 small_fs 3 5 (47 ∷ 98 ∷ []) ≡ err enoent
unfolding walk find_loop
finds_nothing = refl

resolve-holding_example :
    resolve_from 2 5 (47 ∷ 97 ∷ []) small_fs
    ≡ some (holding small_fs (walk 2 small_fs 3 5 (47 ∷ 97 ∷ [])))
resolve-holding_example = resolve-holding small_fs small_kids 1 small_fs-Tree 5 (47 ∷ 97 ∷ []) refl

abbrev opened : OpenFile
opened = record { vn = 9; offset = 2; flags = vfs_o_rdwr; refcount = 1 }

opened-IsFile : IsFile (small_fs.nodes opened.vn)
opened-IsFile = record {
  regular = refl;
  fits = omega arith;
  word = omega arith;
  unallocated = λ e. refl;
}

abbrev malloc : ℕ → Option (ℕ → ℕ)
malloc n = some (λ i. 204)

vfs_write-Wrote_example :
    Wrote opened small_fs (λ i. i + 1) 3 2 (vfs_write malloc opened small_fs (λ i. i + 1) 3)
vfs_write-Wrote_example =
    vfs_write-Wrote malloc opened small_fs (λ i. i + 1) 3 opened-IsFile refl (omega arith)
      (omega arith)

write-seek_read_example :
    let (r, f', s') = vfs_write malloc opened small_fs (λ i. i + 1) 3 in
    let (at, f'') = vfs_seek f' s' 2 0 in
    let (r', out', f₃) = vfs_read f'' s' (λ i. 0) 3 in
    (at ≡ ok 2) × (r' ≡ ok 3) × (bytes out' 0 3 ≡ 1 ∷ 2 ∷ 3 ∷ [])
unfolding vfs_write exyde.User.Ramfs.File.ramfs_write exyde.User.Ramfs.File.make_room
    exyde.User.Ramfs.File.grow_loop
write-seek_read_example =
    let (r, f', s') = vfs_write malloc opened small_fs (λ i. i + 1) 3 in
    write-seek_read malloc opened f' small_fs s' (λ i. i + 1) (λ i. 0) 3 3 opened-IsFile refl refl
      refl (omega arith) (omega arith) refl
