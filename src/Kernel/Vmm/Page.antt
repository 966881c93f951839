-- ===== src/Kernel/Vmm/Page.antt =====
-- The page that a step down the tables asks for, and the state behind such a step.
use exyde.Common.{
  ◌≢◌, ap, sym, ◌∙◌, suc, false, true, ℕ, suc, ◌*◌, ◌^◌, ◌<◌, ◌≤◌, ◌≡◌, ◌⊎◌, inl, inr, refl, ◌∙◌,
  true, false, some, arith,
}
use exyde.Kernel.Chain.{Ptr, null}
use exyde.Kernel.Pmm.{Pmm, used_get, pmm_alloc_page, pmm_alloc_pages}
use exyde.Kernel.Pmm.Range.{free_below-zero, set_range-get, set_range-OnlyUsed}
use exyde.Kernel.Pmm.Alloc.{IsValid, alloc-Outcome, alloc-IsValid, Outcome, found, failed}
use exyde.Kernel.Vmm.{Vmm, child_of}
use exyde.Kernel.Vmm.Walk.{IsPaged, IsClear, idx_at, look}

-- A page that was free and is in use now, or 0.
abbrev pub Fresh : Pmm → ℕ × Pmm → Type 0
Fresh p (np, p') =
    (np ≡ 0)
    ⊎ ((m : ℕ) × (np ≡ m * 4096) × (m < 2 ^ 40) × (used_get p m ≡ false) × (used_get p' m ≡ true))

pub record Page (p : Pmm) (r : ℕ × Pmm) : Type 0 where
  pub valid : IsValid r.1
  pub top : r.1.max_paddr ≡ p.max_paddr
  pub still : (q : ℕ) → used_get p q ≡ true → used_get r.1 q ≡ true
  pub fresh : Fresh p r
  pub spent : p.free_pages ≤ suc r.1.free_pages
  pub nonzero : 0 < p.free_pages → used_get p 0 ≡ true → r.0 ≢ 0

pub alloc-Page : (p : Pmm) → IsValid p → p.max_paddr ≤ 2 ^ 52 → Page p (pmm_alloc_page p)
unfolding pmm_alloc_page
alloc-Page p v small =
    by_outcome (pmm_alloc_pages p 1) (alloc-Outcome v 1 (omega arith)) (alloc-IsValid v 1)
  where
    by_outcome : (r : ℕ × Pmm) → Outcome p 1 0 r → IsValid r.1 → Page p r
    by_outcome r (found start fits free lowest e) ok = coe 1 0 (i. Page p (e i)) (record {
      valid = coe 0 1 (i. IsValid (e i).1) ok;
      top = (set_range-OnlyUsed 1 start p).max_paddr;
      still = λ q u. set_range-get 1 start p q ∙ ground (arith, u);
      fresh = inr (
        start,
        refl,
        omega (arith, v.tracked, fits, small),
        free start (omega arith) (omega arith),
        set_range-get 1 start p start ∙ ground arith,
      );
      spent = omega (arith, (set_range-OnlyUsed 1 start p).free_pages);
      nonzero = λ some_free locked z.
          let here : start ≡ 0 = omega (arith, z) in
          absurd (cc (free start (omega arith) (omega arith), ap (used_get p) here, locked));
    })
    by_outcome r (failed e full) ok =
        let every_used : (q : ℕ) → q < p.total_pages → used_get p q ≡ true = λ q lt.
          let (s, low, high, used) = full q (omega arith) (omega arith) in
          let here : s ≡ q = omega arith in sym (ap (used_get p) here) ∙ used in
        coe 1 0 (i. Page p (e i)) (record {
          valid = v;
          top = refl;
          still = λ q u. u;
          fresh = inl refl;
          spent = omega arith;
          nonzero = λ some_free locked z. absurd (
              omega (
                arith,
                some_free,
                v.counted,
                free_below-zero p.total_pages p (λ q lt. every_used q lt),
              ));
        })

-- What a call for `va` needs to find its way from `t` down `n` more tables: as many free pages, of
-- which 0 is none, and no huge page on the way.
pub record Ready (n va : ℕ) (t : Ptr) (v : Vmm) : Type 0 where
  pub pages : n ≤ v.pmm.free_pages
  pub locked : used_get v.pmm 0 ≡ true
  pub clear : IsClear v.tables n t va

-- The state behind a step from the entry `i` of the table `t` at a level.
pub record Stepped (lvl : Ptr → ℕ) (k t i : ℕ) (v : Vmm) (r : Ptr × Vmm) : Type 0 where
  pub lvl' : Ptr → ℕ
  pub parent' : Ptr → Ptr × ℕ
  pub paged : IsPaged lvl' parent' r.1
  pub spaces : r.1.spaces ≡ v.spaces
  pub same : (p : Ptr) → 0 < lvl p → lvl' p ≡ lvl p
  pub links :
      (p j c : ℕ)
      → 0 < lvl p
      → child_of (v.tables p j) ≡ some c
      → child_of (r.1.tables p j) ≡ some c
  pub looks : (n p va : ℕ) → lvl p ≡ suc n → look r.1.tables n p va ≡ look v.tables n p va
  pub child : (r.0 ≡ null) ⊎ ((lvl' r.0 ≡ suc k) × (child_of (r.1.tables t i) ≡ some r.0))
  pub ready :
      (va : ℕ) → idx_at (suc k) va ≡ i → Ready (suc k) va t v → (r.0 ≢ null) × Ready k va r.0 r.1
