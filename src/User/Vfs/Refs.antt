-- ===== src/User/Vfs/Refs.antt =====
-- References to nodes: one that is taken and dropped leaves the file system as it was.
use exyde.Common.{
  ℕ, zero, suc, ◌+◌, ◌-◌, ◌%◌, ◌^◌, ◌≤◌, ◌<◌, ◌≡◌, ◌≢◌, refl, ap, ◌∙◌, fun_ext, true, false, List,
  [], ◌∷◌, arith, ◌==◌, length, Bool-cases, inl, inr,
}
use native.Mathlib.Nat.{mod-eq_of_lt}
use exyde.Kernel.Chain.{Ptr, null, has, Chain}
use exyde.User.Ramfs.Dir.{Fs, same_name, vnode_ref, vnode_unref, find_loop}

abbrev pub next_of : Fs → Ptr → Ptr
next_of s p = (s.nodes p).next

-- The nodes that are live form a tree: `kids` gives the entries of each directory, and each node
-- holds a reference.
pub record Tree (s : Fs) (kids : Ptr → List Ptr) (fuel : ℕ) : Type 0 where
  pub chain : (d : Ptr) → (s.nodes d).live ≡ true → Chain (next_of s) (s.nodes d).children (kids d)
  pub entries :
      (d p : Ptr) → (s.nodes d).live ≡ true → has p (kids d) ≡ true → (s.nodes p).live ≡ true
  pub parents :
      (p : Ptr)
      → (s.nodes p).live ≡ true
      → (s.nodes p).parent ≢ null
      → (s.nodes (s.nodes p).parent).live ≡ true
  pub counted : (p : Ptr) → (s.nodes p).live ≡ true → 1 ≤ (s.nodes p).refcount
  pub small : (p : Ptr) → (s.nodes p).refcount + 2 < 2 ^ 32
  pub null_dead : (s.nodes null).live ≡ false
  pub few : (d : Ptr) → (s.nodes d).live ≡ true → length (kids d) ≤ fuel

-- The reference that was taken first is dropped again.
pub unref-ref :
    (s : Fs) (k : ℕ) (cur : Ptr)
    → cur ≢ null
    → 1 ≤ (s.nodes cur).refcount
    → (s.nodes cur).refcount + 1 < 2 ^ 32
    → vnode_unref (suc k) cur (vnode_ref cur s) ≡ s
unfolding vnode_ref vnode_unref
unref-ref s k cur ne held small =
    let z : (cur == null) ≡ false = ground arith in
    let one : (cur == cur) ≡ true = ground arith in
    let e : ((s.nodes cur).refcount + 1) % 2 ^ 32 ≡ (s.nodes cur).refcount + 1 =
      mod-eq_of_lt small in
    let nz : ((s.nodes cur).refcount + 1 == 0) ≡ false = ground arith in
    let n1 : ((s.nodes cur).refcount + 1 == 1) ≡ false = ground arith in
    let back : (s.nodes cur).refcount + 1 - 1 ≡ (s.nodes cur).refcount = omega arith in
    rw (z, one, e, nz, n1, back)
      (ap (λ f. record s { nodes = f })
        (fun_ext λ i. elim (Bool-cases (cur == i)) [
          | inl at ↦ rw at (ap s.nodes (let c : cur ≡ i = ground arith in c))
          | inr off ↦ rw off refl
        ]))

-- References to two nodes are taken in either order.
ref-ref : (s : Fs) (p c : Ptr) → vnode_ref p (vnode_ref c s) ≡ vnode_ref c (vnode_ref p s)
unfolding vnode_ref
ref-ref s p c = elim (Bool-cases (p == c)) [
  | inl same ↦ let e : p ≡ c = ground arith in rw e refl
  | inr other ↦ elim (Bool-cases (p == null)) [
    | inl z ↦ rw z refl
    | inr np ↦ elim (Bool-cases (c == null)) [
      | inl z ↦ rw (np, z) refl
      | inr nc ↦
          let other' : (c == p) ≡ false = ground arith in
          rw (np, nc, other, other')
            (ap (λ f. record s { nodes = f })
              (fun_ext λ i. elim (Bool-cases (p == i)) [
                | inl at ↦ let off : (c == i) ≡ false = ground arith in rw (at, off) refl
                | inr off ↦ rw off refl
              ]))
    ]
  ]
]

ref-refcount :
    (s : Fs) (p c : Ptr)
    → (s.nodes c).refcount + 2 < 2 ^ 32
    → ((s.nodes c).refcount ≤ ((vnode_ref p s).nodes c).refcount)
      × (((vnode_ref p s).nodes c).refcount ≤ (s.nodes c).refcount + 1)
unfolding vnode_ref
ref-refcount s p c small = (ground arith, ground arith)

-- The reference moves from `cur` to `p`.
pub unref-ref_ref :
    (s : Fs) (k : ℕ) (cur p : Ptr)
    → cur ≢ null
    → 1 ≤ (s.nodes cur).refcount
    → (s.nodes cur).refcount + 2 < 2 ^ 32
    → vnode_unref (suc k) cur (vnode_ref p (vnode_ref cur s)) ≡ vnode_ref p s
unref-ref_ref s k cur p ne held small =
    let (more, most) = ref-refcount s p cur small in
    ap (vnode_unref (suc k) cur) (ref-ref s p cur)
    ∙ unref-ref (vnode_ref p s) k cur ne (omega arith) (omega arith)

-- Nothing but counts differs behind a reference.
pub ref-fields :
    (s : Fs) (p c : Ptr)
    → let n = s.nodes c in
      let n' = (vnode_ref p s).nodes c in
      (n'.type ≡ n.type)
      × (n'.name ≡ n.name)
      × (n'.children ≡ n.children)
      × (n'.next ≡ n.next)
      × (n'.parent ≡ n.parent)
unfolding vnode_ref
ref-fields s p c = (ground arith, ground arith, ground arith, ground arith, ground arith)

pub find_loop-ref :
    (s : Fs) (p : Ptr) (n : ℕ) (c : Ptr) (name : List ℕ)
    → find_loop n (vnode_ref p s) c name ≡ find_loop n s c name
unfolding find_loop
find_loop-ref s p zero c name = refl
find_loop-ref s p (suc n) c name =
    let (_, named, _, next, _) = ref-fields s p c in
    rw (named, next, find_loop-ref s p n (s.nodes c).next name) refl

-- A search ends with an entry, or with NULL.
pub find_loop-has :
    (s : Fs) (n : ℕ) (c : Ptr) (cs : List Ptr) (name : List ℕ)
    → Chain (next_of s) c cs
    → find_loop n s c name ≢ null
    → has (find_loop n s c name) cs ≡ true
unfolding find_loop
find_loop-has s zero c cs name ch ne = absurd (ne refl)
find_loop-has s (suc n) c [] name ch ne =
    let z : (c == null) ≡ true = ground arith in absurd (ne (rw z refl))
find_loop-has s (suc n) c (x ∷ cs) name (at, nx, ch) ne =
    let z : (c == null) ≡ false = ground arith in
    elim (Bool-cases (same_name (s.nodes c).name name)) [
      | inl m ↦
          ap (λ u. has u (x ∷ cs)) (let e : find_loop (suc n) s c name ≡ c = rw (z, m) refl in e)
          ∙ ground arith
      | inr m ↦
          let rest =
            find_loop-has s n (s.nodes c).next cs name
              (coe 1 0 (k. Chain (next_of s) (next_of s (at k)) cs) ch) (λ e. ne (rw (z, m) e)) in
          ap (λ u. has u (x ∷ cs))
            (let e : find_loop (suc n) s c name ≡ find_loop n s (s.nodes c).next name =
                rw (z, m) refl in
              e)
          ∙ ground (arith, rest)
    ]
