-- ===== src/User/Ramfs/Bytes.antt =====
-- The block of a file, and how a write makes room in it.
use exyde.Common.{
  ℕ, zero, suc, ◌-◌, ◌*◌, ◌%◌, ◌^◌, ◌≤◌, ◌<◌, min, ◌≡◌, refl, ap, ◌∙◌, true, false, ◌||◌, Option,
  some, none, arith, leb, ltb, ◌==◌, if◌then◌else◌, copy_bytes, copy_loop_lem, fill_lem, Bool-cases,
  inl, inr,
}
use native.Mathlib.Nat.{mod-eq_of_lt, mul-one, pow-suc}
use exyde.Kernel.Errno.{Result, ok, err}
use exyde.User.Ramfs.{Node, vfs_type_reg}
use exyde.User.Ramfs.File.{grow_loop, make_room, in_capacity, in_block}

-- A regular file, whose contents lie in its block.
pub record IsFile (vn : Node) : Type 0 where
  pub regular : vn.type ≡ vfs_type_reg
  pub fits : vn.size ≤ vn.capacity
  pub word : vn.capacity < 2 ^ 64
  pub unallocated : vn.allocated ≡ false → vn.capacity ≡ 0

-- A capacity that is enough, or a failure for a need beyond 2 ^ 62.
abbrev Grown : ℕ → Option ℕ → Type 0
Grown need none = 2 ^ 62 < need
Grown need (some c) = (need ≤ c) × (c < 2 ^ 64)

-- The fuel is enough where the doubling reaches 2 ^ 64 with it.
grow_loop-Grown :
    (fuel newcap need : ℕ)
    → newcap < 2 ^ 64
    → 2 ^ 64 ≤ newcap * 2 ^ fuel
    → Grown need (grow_loop fuel newcap need)
unfolding grow_loop
grow_loop-Grown zero newcap need lt far = absurd (omega (arith, mul-one newcap))
grow_loop-Grown (suc fuel) newcap need lt far = elim (Bool-cases (leb need newcap)) [
  | inl enough ↦ rw enough (ground arith, lt)
  | inr small ↦ elim (Bool-cases (ltb (2 ^ 62) newcap)) [
    | inl big ↦ rw (small, big) (ground arith)
    | inr low ↦
        let e : newcap * 2 % 2 ^ 64 ≡ newcap * 2 = mod-eq_of_lt (ground arith) in
        let p : newcap * 2 ^ suc fuel ≡ newcap * 2 * 2 ^ fuel =
          ap (λ u. newcap * u) (pow-suc 2 fuel) ∙ grind arith in
        rw (small, low, e)
          (grow_loop-Grown fuel (newcap * 2) need (ground arith) (omega (arith, p)))
  ]
]

-- Room for `need` bytes: the file's bytes are kept, and those between them and `off` are zero if
-- the block is a new one.
abbrev pub MadeRoom : Node → ℕ → ℕ → Result Node → Type 0
MadeRoom vn off need (err e) = Unit
MadeRoom vn off need (ok vn') =
    IsFile vn'
    × (need ≤ vn'.capacity)
    × (vn'.size ≡ vn.size)
    × ((i : ℕ)
        → (ltb i vn.size || ltb i off) ≡ true
        → vn'.contents i ≡ (if ltb i vn.size || leb need vn.capacity then vn.contents i else 0))

in_capacity-MadeRoom :
    (malloc : ℕ → Option (ℕ → ℕ)) (vn : Node) (off need : ℕ) (g : Option ℕ)
    → IsFile vn
    → off ≤ need
    → leb need vn.capacity ≡ false
    → Grown need g
    → MadeRoom vn off need (in_capacity malloc vn off g)
in_capacity-MadeRoom malloc vn off need none f le small g = tt
in_capacity-MadeRoom malloc vn off need (some newcap) f le small (enough, lt) =
    in_block-MadeRoom (malloc newcap)
  where
    in_block-MadeRoom : (b : Option (ℕ → ℕ)) → MadeRoom vn off need (in_block vn off newcap b)
    in_block-MadeRoom none = tt
    in_block-MadeRoom (some nd) = (
      record {
        regular = f.regular;
        fits = ground (arith, f.fits);
        word = lt;
        unallocated = λ e. cc;
      },
      enough,
      refl,
      λ i lt. ground (
        arith,
        f.fits,
        fill_lem (min off newcap - vn.size) vn.size 0 (copy_bytes nd 0 vn.contents 0 vn.size) i,
        copy_loop_lem nd 0 vn.contents 0 0 vn.size i,
      ),
    )

pub make_room-MadeRoom :
    (malloc : ℕ → Option (ℕ → ℕ)) (vn : Node) (off need : ℕ)
    → IsFile vn
    → off ≤ need
    → MadeRoom vn off need (make_room malloc vn off need)
unfolding make_room
make_room-MadeRoom malloc vn off need f le = elim (Bool-cases (leb need vn.capacity)) [
  | inl enough ↦ rw enough (f, ground arith, refl, λ i lt. ground arith)
  | inr small ↦ rw small (
      in_capacity-MadeRoom malloc vn off need _ f le small (
        grow_loop-Grown 64 (if vn.capacity == 0 then 64 else vn.capacity) need
          (ground (arith, f.word)) (ground arith)))
]
