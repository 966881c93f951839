-- ===== src/Kernel/Vmm/Walk.antt =====
-- One address space as a tree of tables, and the page that an address leads to.
use exyde.Common.{
  ℕ, zero, suc, ◌/◌, ◌%◌, ◌^◌, ◌<◌, ◌≤◌, ◌≡◌, refl, ap, ◌∙◌, sym, true, false, Option, some, none,
  if◌then◌else◌, arith,
}
use exyde.Common.Bits.{bit_and-mask}
use exyde.Kernel.Chain.{Ptr, null}
use exyde.Kernel.Pmm.{used_get, page_size}
use exyde.Kernel.Pmm.Alloc.{IsValid}
use exyde.Kernel.Vmm.{
  pte_huge, Vmm, test_flag, idx_pml4, idx_pdpt, idx_pd, idx_pt, child_of, pte_present,
}

-- The index of an address at a level, 0 for the level of the pages.
abbrev pub idx_at : ℕ → ℕ → ℕ
idx_at zero va = idx_pt va
idx_at (suc zero) va = idx_pd va
idx_at (suc (suc zero)) va = idx_pdpt va
idx_at (suc (suc (suc k))) va = idx_pml4 va

-- The entry of a page that is mapped.
abbrev pub page_of : ℕ → Option ℕ
page_of e = if test_flag e pte_present then some e else none

-- The entry for an address, and the table it stands in, from a table at a level on.
abbrev pub through {ℓ} : {A : Type ℓ} → (Ptr → Option A) → Option Ptr → Option A
through next none = none
through next (some t) = next t

abbrev pub walk : (Ptr → ℕ → ℕ) → ℕ → Ptr → ℕ → Option Ptr
walk tables zero t va = some t
walk tables (suc k) t va =
    through (λ c. walk tables k c va) (child_of (tables t (idx_at (suc k) va)))

abbrev pub look : (Ptr → ℕ → ℕ) → ℕ → Ptr → ℕ → Option ℕ
look tables zero t va = page_of (tables t (idx_pt va))
look tables (suc k) t va =
    through (λ c. look tables k c va) (child_of (tables t (idx_at (suc k) va)))

-- The tables of one space, each with its level from 1 to 4, 0 for what is no table of it, and the
-- one entry that points to it. Their pages are in use.
pub record IsPaged (lvl : Ptr → ℕ) (parent : Ptr → Ptr × ℕ) (v : Vmm) : Type 0 where
  pub typed :
      (p i k c : ℕ)
      → i < 512
      → lvl p ≡ suc (suc k)
      → child_of (v.tables p i) ≡ some c
      → (lvl c ≡ suc k) × (parent c ≡ (p, i))
  pub kept : (p : Ptr) → 0 < lvl p → used_get v.pmm (p / page_size) ≡ true
  pub nonnull : lvl null ≡ 0
  pub valid : IsValid v.pmm
  pub bounded : v.pmm.max_paddr ≤ 2 ^ 52

pub idx_at-lt : (k va : ℕ) → idx_at k va < 512
unfolding idx_pml4 idx_pdpt idx_pd idx_pt
idx_at-lt zero va = omega (arith, bit_and-mask 9 (va / 2 ^ 12))
idx_at-lt (suc zero) va = omega (arith, bit_and-mask 9 (va / 2 ^ 21))
idx_at-lt (suc (suc zero)) va = omega (arith, bit_and-mask 9 (va / 2 ^ 30))
idx_at-lt (suc (suc (suc k))) va = omega (arith, bit_and-mask 9 (va / 2 ^ 39))

-- Nothing is mapped in a table of zeros.
pub look-zeros :
    (tables : Ptr → ℕ → ℕ) (k t va : ℕ)
    → ((j : ℕ) → j < 512 → tables t j ≡ 0)
    → look tables k t va ≡ none
unfolding test_flag
look-zeros tables zero t va zeros = rw (zeros (idx_pt va) (idx_at-lt 0 va)) refl
look-zeros tables (suc k) t va zeros = rw (zeros (idx_at (suc k) va) (idx_at-lt (suc k) va)) refl

-- No present entry on the way of an address down `k` tables from `t` is a huge page.
abbrev pub IsClear : (Ptr → ℕ → ℕ) → ℕ → Ptr → ℕ → Type 0
IsClear tables zero t va = ◌≡◌ {A = ℕ} 0 0
IsClear tables (suc k) t va =
    (test_flag (tables t (idx_at (suc k) va)) pte_present ≡ true
      → test_flag (tables t (idx_at (suc k) va)) pte_huge ≡ false)
    × ((c : Ptr) → child_of (tables t (idx_at (suc k) va)) ≡ some c → IsClear tables k c va)

pub IsClear-zeros :
    (tables : Ptr → ℕ → ℕ) (k t va : ℕ)
    → ((j : ℕ) → j < 512 → tables t j ≡ 0)
    → IsClear tables k t va
unfolding test_flag
IsClear-zeros tables zero t va zeros = refl
IsClear-zeros tables (suc k) t va zeros =
    let z = zeros (idx_at (suc k) va) (idx_at-lt (suc k) va) in rw z (λ e. refl, λ c e. cc)

-- Two addresses with the same indices above the last level.
abbrev pub Agree : ℕ → ℕ → ℕ → Type 0
Agree zero va vb = ◌≡◌ {A = ℕ} 0 0
Agree (suc k) va vb = (idx_at (suc k) va ≡ idx_at (suc k) vb) × Agree k va vb

pub Agree-same :
    (va vb : ℕ)
    → Agree 3 va vb
    → idx_pt va ≡ idx_pt vb
    → va % 4096 ≡ 0
    → vb % 4096 ≡ 0
    → va < 2 ^ 48
    → vb < 2 ^ 48
    → va ≡ vb
unfolding idx_pml4 idx_pdpt idx_pd idx_pt
Agree-same va vb (e₃, (e₂, (e₁, _))) e₀ even even' lt lt' = omega (
  arith,
  bit_and-mask 9 (va / 2 ^ 12),
  bit_and-mask 9 (vb / 2 ^ 12),
  bit_and-mask 9 (va / 2 ^ 21),
  bit_and-mask 9 (vb / 2 ^ 21),
  bit_and-mask 9 (va / 2 ^ 30),
  bit_and-mask 9 (vb / 2 ^ 30),
  bit_and-mask 9 (va / 2 ^ 39),
  bit_and-mask 9 (vb / 2 ^ 39),
)

pub some-lem : {a b : ℕ} → some a ≡ some b → a ≡ b
some-lem e = cc

pub through-some :
    {A : Type 0} (next : Ptr → Option A) (o : Option Ptr) (t : A)
    → through next o ≡ some t
    → (c : Ptr) × (o ≡ some c) × (next c ≡ some t)
through-some next none t e = cc
through-some next (some c) t e = (c, refl, e)

pub through-congr :
    {A : Type 0} (f g : Ptr → Option A) (o : Option Ptr)
    → ((c : Ptr) → o ≡ some c → f c ≡ g c)
    → through f o ≡ through g o
through-congr f g none same = refl
through-congr f g (some c) same = same c refl

-- Two walks to the same table have gone the same way.
module _ (lvl : Ptr → ℕ) (parent : Ptr → Ptr × ℕ) (v : Vmm) (inv : IsPaged lvl parent v) where
  pub walk-level : (k p va t : ℕ) → lvl p ≡ suc k → walk v.tables k p va ≡ some t → lvl t ≡ 1
  walk-level zero p va t at e = ap lvl (sym (some-lem e)) ∙ at
  walk-level (suc k) p va t at e =
      let (c, is, w) =
        through-some (λ c. walk v.tables k c va) (child_of (v.tables p (idx_at (suc k) va))) t e in
      walk-level k c va t (inv.typed p (idx_at (suc k) va) k c (idx_at-lt (suc k) va) at is).0 w

  pub walk-Agree :
      (k p q va vb t : ℕ)
      → lvl p ≡ suc k
      → lvl q ≡ suc k
      → walk v.tables k p va ≡ some t
      → walk v.tables k q vb ≡ some t
      → (p ≡ q) × Agree k va vb
  walk-Agree zero p q va vb t at at' e e' = (some-lem (e ∙ sym e'), refl)
  walk-Agree (suc k) p q va vb t at at' e e' =
      let i = idx_at (suc k) va in
      let j = idx_at (suc k) vb in
      let (c, is, w) = through-some (λ c. walk v.tables k c va) (child_of (v.tables p i)) t e in
      let (c', is', w') = through-some (λ c. walk v.tables k c vb) (child_of (v.tables q j)) t e' in
      let (level, from) = inv.typed p i k c (idx_at-lt (suc k) va) at is in
      let (level', from') = inv.typed q j k c' (idx_at-lt (suc k) vb) at' is' in
      let (same, rest) = walk-Agree k c c' va vb t level level' w w' in
      let e : (p, i) ≡ (q, j) = sym from ∙ ap parent same ∙ from' in
      (ap (λ x. x.0) e, (ap (λ x. x.1) e, rest))
