-- ===== src/Kernel/Vmm/Boot.antt =====
-- An address space whose lowest entry leads, as after src/kernel/arch/x86_64/boot/boot.asm, by a table of
-- the second level to one that is full of huge pages.
use exyde.Common.{
  ℕ, suc, ◌*◌, ◌/◌, ◌<◌, ◌≡◌, refl, ap, ◌∙◌, sym, true, some, none, ◌==◌, bit_or, if◌then◌else◌,
  arith, Bool-cases, inl, inr,
}
use exyde.Kernel.Chain.{Ptr}
use exyde.Kernel.Pmm.{used_get, get_bit}
use exyde.Kernel.Vmm.{Vmm, test_flag, child_of}
use exyde.Kernel.Vmm.Entry.{present-or, huge-or}
use exyde.Kernel.Vmm.Walk.{IsPaged, IsClear, look, idx_at, through, some-lem}
use exyde.Kernel.Vmm.Leaf.{decode, query-look}
use exyde.Kernel.Vmm.Mapping.{IsMap}
use exyde.Kernel.Vmm.Sample.{bare, nothing, bare-IsValid}

-- The pages 1, 2 and 3 are the tables.
abbrev tables : Ptr → ℕ → ℕ
tables p j =
    if p == 0x1000
    then (if j == 0 then 0x2003 else 0)
    else if p == 0x2000
    then (if j == 0 then 0x3003 else 0)
    else if p == 0x3000
    then bit_or (j * 512 * 4096) 0x83
    else 0

abbrev pub booted : Vmm
booted = record bare { tables = tables }

abbrev lvl : Ptr → ℕ
lvl p = if p == 0x1000 then 4 else if p == 0x2000 then 3 else if p == 0x3000 then 2 else 0

abbrev parent : Ptr → Ptr × ℕ
parent p = if p == 0x2000 then (0x1000, 0) else (0x2000, 0)

huge-none : (j : ℕ) → child_of (tables 0x3000 j) ≡ none
huge-none j =
    let here = present-or (j * 512) 0x83 (omega arith) in
    let huge = huge-or (j * 512) 0x83 (omega arith) in rw (here, huge) refl

at_root :
    (i k c : ℕ)
    → 4 ≡ suc (suc k)
    → child_of (tables 0x1000 i) ≡ some c
    → (lvl c ≡ suc k) × (parent c ≡ (0x1000, i))
unfolding test_flag
at_root i k c level e = elim (Bool-cases (i == 0)) [
  | inl z ↦
      let first : 0 ≡ i = ground arith in
      let it : 0x2000 ≡ c = some-lem (rw z at e) in
      coe 0 1 (x. (lvl (it x) ≡ suc k) × (parent (it x) ≡ (0x1000, i)))
        (omega arith, ap (λ j. (0x1000, j)) first)
  | inr z ↦ absurd (cc (rw z at e))
]

at_second :
    (i k c : ℕ)
    → 3 ≡ suc (suc k)
    → child_of (tables 0x2000 i) ≡ some c
    → (lvl c ≡ suc k) × (parent c ≡ (0x2000, i))
unfolding test_flag
at_second i k c level e = elim (Bool-cases (i == 0)) [
  | inl z ↦
      let first : 0 ≡ i = ground arith in
      let it : 0x3000 ≡ c = some-lem (rw z at e) in
      coe 0 1 (x. (lvl (it x) ≡ suc k) × (parent (it x) ≡ (0x2000, i)))
        (omega arith, ap (λ j. (0x2000, j)) first)
  | inr z ↦ absurd (cc (rw z at e))
]

typed :
    (p i k c : ℕ)
    → lvl p ≡ suc (suc k)
    → child_of (tables p i) ≡ some c
    → (lvl c ≡ suc k) × (parent c ≡ (p, i))
typed p i k c level e = elim (Bool-cases (p == 0x1000)) [
  | inl z ↦
      let at : 0x1000 ≡ p = ground arith in
      coe 0 1 (x. (lvl c ≡ suc k) × (parent c ≡ (at x, i)))
        (at_root i k c (ap lvl at ∙ level) (ap (λ q. child_of (tables q i)) at ∙ e))
  | inr z ↦ elim (Bool-cases (p == 0x2000)) [
    | inl z' ↦
        let at : 0x2000 ≡ p = ground arith in
        coe 0 1 (x. (lvl c ≡ suc k) × (parent c ≡ (at x, i)))
          (at_second i k c (ap lvl at ∙ level) (ap (λ q. child_of (tables q i)) at ∙ e))
    | inr z' ↦ elim (Bool-cases (p == 0x3000)) [
      | inl z'' ↦
          let at : 0x3000 ≡ p = ground arith in
          absurd (cc (huge-none i, ap (λ q. child_of (tables q i)) at, e))
      | inr z'' ↦ absurd (ground arith)
    ]
  ]
]

kept : (p : Ptr) → 0 < lvl p → used_get booted.pmm (p / 4096) ≡ true
unfolding get_bit
kept p pos = elim (Bool-cases (p == 0x1000)) [
  | inl z ↦ let at : 0x1000 ≡ p = ground arith in ap (λ q. used_get booted.pmm (q / 4096)) (sym at)
  | inr z ↦ elim (Bool-cases (p == 0x2000)) [
    | inl z' ↦
        let at : 0x2000 ≡ p = ground arith in ap (λ q. used_get booted.pmm (q / 4096)) (sym at)
    | inr z' ↦ elim (Bool-cases (p == 0x3000)) [
      | inl z'' ↦
          let at : 0x3000 ≡ p = ground arith in ap (λ q. used_get booted.pmm (q / 4096)) (sym at)
      | inr z'' ↦ absurd (ground arith)
    ]
  ]
]

booted-IsPaged : IsPaged lvl parent booted
booted-IsPaged = record {
  typed = λ p i k c lt level e. typed p i k c level e;
  kept = kept;
  nonnull = refl;
  valid = bare-IsValid;
  bounded = omega arith;
}

-- No address leads past the huge pages.
look-none : (vb : ℕ) → look tables 3 0x1000 vb ≡ none
unfolding test_flag
look-none vb = elim (Bool-cases (idx_at 3 vb == 0)) [
  | inr z ↦ rw z refl
  | inl z ↦ elim (Bool-cases (idx_at 2 vb == 0)) [
    | inr z' ↦ rw (z, z') refl
    | inl z' ↦ rw (z, z') (ap (through (λ c. look tables 0 c vb)) (huge-none (idx_at 1 vb)))
  ]
]

pub booted-IsMap : IsMap 500 nothing booted
booted-IsMap = record {
  lvl = lvl;
  parent = parent;
  paged = booted-IsPaged;
  level = refl;
  reads = λ vb even small.
      query-look lvl parent booted booted-IsPaged vb 500 refl even refl ∙ ap decode (look-none vb);
}

-- There is no huge page on the way of an address under the second entry of the root.
pub booted-IsClear : IsClear tables 3 0x1000 0x8000201000
unfolding test_flag exyde.Kernel.Vmm.idx_pml4
booted-IsClear = (λ e. refl, λ c e. cc)
