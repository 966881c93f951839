-- ===== src/User/Vfs/Resolve.antt =====
-- A path walk takes one reference to the node that it finds and leaves every other count as it was,
-- also when it fails.
use exyde.Common.{
  ℕ, zero, suc, ◌≤◌, ◌<◌, ◌≡◌, ◌≢◌, refl, ap, ◌∙◌, sym, true, false, not, List, [], ◌∷◌, some,
  arith, ltb, ◌==◌, if◌then◌else◌, length, Bool-cases, inl, inr,
}
use exyde.Kernel.Chain.{Ptr, null}
use exyde.Kernel.Errno.{Result, ok, err, enoent, enotdir, enametoolong}
use exyde.User.Ramfs.{vfs_type_dir}
use exyde.User.Ramfs.Dir.{Fs, vnode_ref, ramfs_find, ramfs_lookup}
use exyde.User.Vfs.{
  skip_slashes, component, is_dot, is_dot_dot, walk_step, and_then, resolve_loop, resolve_from,
  vfs_name_max, slash,
}
use exyde.User.Vfs.Refs.{Tree, unref-ref, unref-ref_ref, ref-fields, find_loop-ref, find_loop-has}

-- The walk of a path on a file system whose counts do not change.
abbrev step : ℕ → Fs → Ptr → List ℕ → Result Ptr
step fuel s cur name =
    let vn = s.nodes cur in
    let c = ramfs_find fuel s cur name in
    if is_dot name
    then ok cur
    else if is_dot_dot name
    then ok (if vn.parent == null then cur else vn.parent)
    else if not (vn.type == vfs_type_dir)
    then err enotdir
    else if c == null
    then err enoent
    else ok c

abbrev pub bind : Result Ptr → (Ptr → Result Ptr) → Result Ptr
bind (err e) f = err e
bind (ok p) f = f p

unfoldable pub walk : ℕ → Fs → ℕ → Ptr → List ℕ → Result Ptr
walk fuel s zero cur path = ok cur
walk fuel s (suc n) cur path =
    let p = skip_slashes path in
    let (name, rest) = component p in
    let next = bind (step fuel s cur name) (λ c. walk fuel s n c rest) in
    if length p == 0
    then ok cur
    else if ltb vfs_name_max (length name)
    then err enametoolong
    else next

-- A result with the reference that it holds.
abbrev pub holding : Fs → Result Ptr → Result Ptr × Fs
holding s (err e) = (err e, s)
holding s (ok p) = (ok p, vnode_ref p s)

module _ (s : Fs) (kids : Ptr → List Ptr) (k : ℕ) (t : Tree s kids (suc k)) where
  live_ne : (p : Ptr) → (s.nodes p).live ≡ true → p ≢ null
  live_ne p l e = let f : true ≡ false = sym l ∙ (ap (λ u. (s.nodes u).live) e ∙ t.null_dead) in cc

  walk_step-holding :
      (cur : Ptr) (name : List ℕ)
      → (s.nodes cur).live ≡ true
      → walk_step (suc k) cur name (vnode_ref cur s) ≡ holding s (step (suc k) s cur name)
  unfolding walk_step ramfs_lookup
  walk_step-holding cur name l =
      let (type, _, children, _, parent) = ref-fields s cur cur in
      let ne = live_ne cur l in
      let back = unref-ref s k cur ne (t.counted cur l) (omega (arith, t.small cur)) in
      let move = λ (p : Ptr). unref-ref_ref s k cur p ne (t.counted cur l) (t.small cur) in
      rw (type, children, parent, find_loop-ref s cur (suc k) (s.nodes cur).children name)
        (elim (Bool-cases (is_dot name)) [
          | inl d ↦ rw d refl
          | inr d ↦ elim (Bool-cases (is_dot_dot name)) [
            | inl dd ↦
                let par = if (s.nodes cur).parent == null then cur else (s.nodes cur).parent in
                elim (Bool-cases (par == cur)) [
                  | inl same ↦
                      let e : cur ≡ par = ground arith in
                      rw (d, dd, same) (ap (λ u. (ok u, vnode_ref u s)) e)
                  | inr off ↦ rw (d, dd, off) (ap (λ u. (ok par, u)) (move par))
                ]
            | inr nd ↦ elim (Bool-cases ((s.nodes cur).type == vfs_type_dir)) [
              | inr z ↦ rw (d, nd, z) (ap (λ u. (err enotdir, u)) back)
              | inl y ↦ elim (Bool-cases (ramfs_find (suc k) s cur name == null)) [
                | inl z ↦ rw (d, nd, y, z) (ap (λ u. (err enoent, u)) back)
                | inr z ↦
                    rw (d, nd, y, z)
                      (ap (λ u. (ok (ramfs_find (suc k) s cur name), u))
                        (move (ramfs_find (suc k) s cur name)))
              ]
            ]
          ]
        ])

  abbrev Live : Result Ptr → Type 0
  Live (err e) = Unit
  Live (ok p) = (s.nodes p).live ≡ true

  step-Live :
      (cur : Ptr) (name : List ℕ) → (s.nodes cur).live ≡ true → Live (step (suc k) s cur name)
  step-Live cur name l = elim (Bool-cases (is_dot name)) [
    | inl d ↦ rw d l
    | inr d ↦ elim (Bool-cases (is_dot_dot name)) [
      | inl dd ↦ elim (Bool-cases ((s.nodes cur).parent == null)) [
        | inl z ↦ rw (d, dd, z) l
        | inr z ↦ rw (d, dd, z) (t.parents cur l (λ e. ground arith))
      ]
      | inr nd ↦ elim (Bool-cases ((s.nodes cur).type == vfs_type_dir)) [
        | inr y ↦ rw (d, nd, y) tt
        | inl y ↦ elim (Bool-cases (ramfs_find (suc k) s cur name == null)) [
          | inl z ↦ rw (d, nd, y, z) tt
          | inr z ↦
              let c = ramfs_find (suc k) s cur name in
              let ne : c ≢ null = λ e. ground arith in
              rw (d, nd, y, z)
                (t.entries cur c l (
                  find_loop-has s (suc k) (s.nodes cur).children (kids cur) name (t.chain cur l)
                    ne))
        ]
      ]
    ]
  ]

  -- The path is shorter behind a component that is not empty.
  skip-length : (path : List ℕ) → length (skip_slashes path) ≤ length path
  skip-length [] = omega arith
  skip-length (x ∷ xs) = ground (arith, skip-length xs)

  component-length : (p : List ℕ) → length (component p).1 ≤ length p
  component-length [] = omega arith
  component-length (x ∷ xs) = ground (arith, component-length xs)

  skip-head :
      (path : List ℕ)
      → (length (skip_slashes path) == 0) ≡ false
      → length (component (skip_slashes path)).1 < length path
  skip-head [] ne = ground arith
  skip-head (x ∷ xs) ne = elim (Bool-cases (x == slash)) [
    | inl y ↦ rw y (omega (arith, skip-head xs (ground arith)))
    | inr z ↦ rw (z, z) (omega (arith, component-length xs))
  ]

  and_then-holding :
      (n : ℕ) (rest : List ℕ) (r : Result Ptr)
      → Live r
      → ((p : Ptr)
          → (s.nodes p).live ≡ true
          → resolve_loop (suc k) n p rest (vnode_ref p s)
            ≡ some (holding s (walk (suc k) s n p rest)))
      → and_then (λ c s'. resolve_loop (suc k) n c rest s') (holding s r)
        ≡ some (holding s (bind r (λ c. walk (suc k) s n c rest)))
  and_then-holding n rest (err e) l go = refl
  and_then-holding n rest (ok p) l go = go p l

  resolve_loop-holding :
      (n : ℕ) (cur : Ptr) (path : List ℕ)
      → (s.nodes cur).live ≡ true
      → length path < n
      → resolve_loop (suc k) n cur path (vnode_ref cur s)
        ≡ some (holding s (walk (suc k) s n cur path))
  unfolding resolve_loop walk
  resolve_loop-holding zero cur path l lt = absurd (omega arith)
  resolve_loop-holding (suc n) cur path l lt = elim (Bool-cases (length (skip_slashes path) == 0)) [
    | inl z ↦ rw z refl
    | inr z ↦ elim (Bool-cases (ltb vfs_name_max (length (component (skip_slashes path)).0))) [
      | inl long ↦
          rw (z, long)
            (ap (λ u. some (err enametoolong, u))
              (unref-ref s k cur (live_ne cur l) (t.counted cur l) (omega (arith, t.small cur))))
      | inr short ↦
          rw (z, short, walk_step-holding cur (component (skip_slashes path)).0 l)
            (and_then-holding n (component (skip_slashes path)).1
              (step (suc k) s cur (component (skip_slashes path)).0)
              (step-Live cur (component (skip_slashes path)).0 l)
              (λ p lp.
                resolve_loop-holding n p (component (skip_slashes path)).1 lp
                  (omega (arith, skip-head path z))))
    ]
  ]

  -- From a live node, where the lists of children are well formed and within the fuel, every live
  -- node has a count from 1 on with room for two more, and parents and entries are live, the walk of
  -- `resolve_from` ends. Its result is that of a walk on counts that do not change, and it holds one
  -- reference to the node that it finds and no other.
  pub resolve-holding :
      (start : Ptr) (path : List ℕ)
      → (s.nodes start).live ≡ true
      → resolve_from (suc k) start path s
        ≡ some (holding s (walk (suc k) s (suc (length path)) start path))
  unfolding resolve_from
  resolve-holding start path l = resolve_loop-holding (suc (length path)) start path l (omega arith)
