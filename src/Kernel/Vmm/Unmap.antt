-- ===== src/Kernel/Vmm/Unmap.antt =====
-- `vmm_unmap` as a change of what an address space maps.
use exyde.Common.{
  ℕ, ◌^◌, ◌<◌, ◌≤◌, ◌≡◌, ◌≢◌, ◌⊎◌, inl, inr, refl, ap, ◌∙◌, sym, Bool, true, false, Option, some,
  none, ltb, ◌==◌, update, arith, Bool-cases,
}
use exyde.Kernel.Chain.{Ptr, null}
use exyde.Kernel.Vmm.{
  Vmm, test_flag, idx_pt, child_of, pte_present, set_entry, vmm_unmap, unmap_leaf, walk_leaf,
  is_offset, lower_bound,
}
use exyde.Kernel.Vmm.Walk.{walk-level, look, walk, idx_at, through, page_of}
use exyde.Kernel.Vmm.Leaf.{decode}
use exyde.Kernel.Vmm.Mapping.{Holds, IsMap, IsMap-Holds, Holds-IsMap, write-Holds}
use exyde.Kernel.Vmm.Map.{look-walk}
use exyde.Kernel.Vmm.{at_child}

-- A walk ends at a table, or nothing is read.
abbrev Leads : (Ptr → ℕ → ℕ) → ℕ → ℕ → Option Ptr → Ptr → Type 0
Leads tables n va o r =
    (through (λ c. walk tables n c va) o ≡ some r)
    ⊎ ((r ≡ null) × (through (λ c. look tables n c va) o ≡ none))

leads :
    (tables : Ptr → ℕ → ℕ) (n va : ℕ) (next : Ptr → Ptr) (o : Option Ptr)
    → ((c : Ptr)
        → (walk tables n c va ≡ some (next c)) ⊎ ((next c ≡ null) × (look tables n c va ≡ none)))
    → Leads tables n va o (at_child next o)
leads tables n va next none each = inr (refl, refl)
leads tables n va next (some c) each = each c

walk_leaf-walk :
    (space : Ptr) (va : ℕ) (v : Vmm)
    → (space == null) ≡ false
    → (walk v.tables 3 (v.spaces space).pml4 va ≡ some (walk_leaf space va v))
      ⊎ ((walk_leaf space va v ≡ null) × (look v.tables 3 (v.spaces space).pml4 va ≡ none))
unfolding walk_leaf
walk_leaf-walk space va v there = rw there (
    leads v.tables 2 va
      (λ pdpt.
        at_child (λ pd. at_child (λ pt. pt) (child_of (v.tables pd (idx_at 1 va))))
          (child_of (v.tables pdpt (idx_at 2 va))))
      (child_of (v.tables (v.spaces space).pml4 (idx_at 3 va)))
      (λ pdpt.
        leads v.tables 1 va (λ pd. at_child (λ pt. pt) (child_of (v.tables pd (idx_at 1 va))))
          (child_of (v.tables pdpt (idx_at 2 va)))
          (λ pd.
            leads v.tables 0 va (λ pt. pt) (child_of (v.tables pd (idx_at 1 va)))
              (λ pt. inl refl))))

-- What is mapped no longer, or the state as it was where nothing was mapped.
abbrev pub Unmapped : Ptr → (ℕ → Option (ℕ × ℕ)) → ℕ → Vmm → Bool × Vmm → Type 0
Unmapped space f va v (false, v') = (f va ≡ none) × (v' ≡ v)
Unmapped space f va v (true, v') = (f va ≢ none) × IsMap space (update f va none) v'

-- In an address space that maps the pages of `f`, for the address of a page from the lower bound of the
-- space to 2 ^ 48, a removal succeeds exactly if the page is mapped; it is no longer mapped then, and the
-- others are as before. Otherwise nothing is changed.
pub unmap-Unmapped :
    (space : Ptr) (f : ℕ → Option (ℕ × ℕ)) (v : Vmm) (va : ℕ)
    → IsMap space f v
    → (space == null) ≡ false
    → is_offset va ≡ false
    → lower_bound space v ≤ va
    → va < 2 ^ 48
    → Unmapped space f va v (vmm_unmap space va v)
unfolding vmm_unmap test_flag
unmap-Unmapped space f v va inv there even low small =
    let h = IsMap-Holds space f v there inv in
    let above : ltb va (lower_bound space v) ≡ false = ground arith in
    rw (there, even, above)
      (elim (walk_leaf-walk space va v there) [
        | inl path ↦ at_leaf h (walk_leaf space va v) path
        | inr (z, nothing) ↦
            let gone : (walk_leaf space va v == null) ≡ true = ground (arith, z) in
            rw gone (sym (h.reads va even small) ∙ ap decode nothing, refl)
      ])
  where
    at_leaf :
        Holds (v.spaces space).pml4 f inv.lvl inv.parent v
        → (pt : Ptr) → walk v.tables 3 (v.spaces space).pml4 va ≡ some pt
        → Unmapped space f va v (unmap_leaf va v pt)
    at_leaf h pt path =
        let level =
          walk-level inv.lvl inv.parent v inv.paged 3 (v.spaces space).pml4 va pt inv.level path in
        let on : (pt == null) ≡ false = ground (arith, inv.paged.nonnull, ap inv.lvl) in
        let is =
          sym (h.reads va even small)
          ∙ ap decode (look-walk v.tables 3 (v.spaces space).pml4 va pt path) in
        elim (Bool-cases (test_flag (v.tables pt (idx_pt va)) pte_present)) [
          | inl mapped ↦
              let now : page_of (v.tables pt (idx_pt va)) ≡ some (v.tables pt (idx_pt va)) =
                rw mapped refl in
              rw (on, mapped)
                (
                  (λ z. absurd (cc (z, is, ap decode now))),
                  Holds-IsMap space (update f va none)
                      (record v { tables = set_entry pt (idx_pt va) 0 v.tables })
                      (v.spaces space).pml4 inv.lvl inv.parent there refl
                      (write-Holds (v.spaces space).pml4 f inv.lvl inv.parent v h va even small pt
                        level path 0 none refl),
                )
          | inr absent ↦
              let now : page_of (v.tables pt (idx_pt va)) ≡ none = rw absent refl in
              rw (on, absent) (is ∙ ap decode now, refl)
        ]
