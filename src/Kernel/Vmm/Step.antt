-- ===== src/Kernel/Vmm/Step.antt =====
-- One step down the tables: `descend_or_alloc` maps nothing and unmaps nothing.
use exyde.Common.{
  arith, ◌≢◌, ap, ℕ, suc, ◌<◌, ◌≡◌, ◌⊎◌, inl, inr, refl, ◌∙◌, Bool, some, bit_and, Bool-cases,
}
use exyde.Kernel.Chain.{Ptr, null}
use exyde.Kernel.Pmm.{pmm_alloc_page}
use exyde.Kernel.Vmm.{
  Vmm, test_flag, child_of, pte_present, pte_huge, pte_addr_mask, descend_or_alloc,
}
use exyde.Kernel.Vmm.Walk.{IsPaged, IsClear, idx_at}
use exyde.Kernel.Vmm.Page.{alloc-Page, Stepped}
use exyde.Kernel.Vmm.NewTable.{new_table-Stepped}

-- Whatever the entry, a step maps nothing and unmaps nothing.
pub descend-Stepped :
    (lvl : Ptr → ℕ) (parent : Ptr → Ptr × ℕ) (v : Vmm)
    → IsPaged lvl parent v
    → (k t i : ℕ) → lvl t ≡ suc (suc k)
    → i < 512
    → (user : Bool) → Stepped lvl k t i v (descend_or_alloc t i user v)
unfolding descend_or_alloc
descend-Stepped lvl parent v inv k t i at lt user =
    elim (Bool-cases (test_flag (v.tables t i) pte_present)) [
      | inl there ↦ elim (Bool-cases (test_flag (v.tables t i) pte_huge)) [
        | inl huge ↦
            rw (there, huge)
              (stays null (inl refl) (λ va e clear. absurd (
                cc (
                  huge,
                  ap (λ j. test_flag (v.tables t j) pte_huge) e,
                  clear.0 (ap (λ j. test_flag (v.tables t j) pte_present) e ∙ there),
                ))))
        | inr small ↦
            let c = bit_and (v.tables t i) pte_addr_mask in
            let is : child_of (v.tables t i) ≡ some c = rw (there, small) refl in
            let level = (inv.typed t i k c lt at is).0 in
            rw (there, small)
              (stays c (inr (level, is)) (λ va e clear. (
                λ z. absurd (omega (arith, inv.nonnull, ap lvl z, level)),
                clear.1 c (ap (λ j. child_of (v.tables t j)) e ∙ is),
              )))
      ]
      | inr absent ↦ rw absent (
          new_table-Stepped lvl parent v inv k t i at lt user absent (pmm_alloc_page v.pmm)
            (alloc-Page v.pmm inv.valid inv.bounded))
    ]
  where
    stays :
        (c : Ptr)
        → (c ≡ null) ⊎ ((lvl c ≡ suc k) × (child_of (v.tables t i) ≡ some c))
        → ((va : ℕ)
            → idx_at (suc k) va ≡ i
            → IsClear v.tables (suc k) t va
            → (c ≢ null) × IsClear v.tables k c va)
        → Stepped lvl k t i v (c, v)
    stays c child goes_on = record {
      lvl' = lvl;
      parent' = parent;
      paged = inv;
      spaces = refl;
      same = λ p pos. refl;
      links = λ p j c pos e. e;
      looks = λ n p va level. refl;
      child = child;
      ready = λ va e ready.
          let (nonnull, clear) = goes_on va e ready.clear in
          (
            nonnull,
            record { pages = omega (arith, ready.pages); locked = ready.locked; clear = clear },
          );
    }
