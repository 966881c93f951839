-- ===== src/Kernel/Vmm/Leaf.antt =====
-- The write of an entry of the last level, and what a query reads.
use exyde.Common.{
  ℕ, zero, suc, ◌≡◌, ◌≢◌, inl, inr, refl, ap, ◌∙◌, sym, true, false, Option, some, none, ◌==◌,
  bit_and, arith, Bool-cases,
}
use exyde.Kernel.Chain.{Ptr, null}
use exyde.Kernel.Vmm.{
  Vmm, test_flag, idx_pt, child_of, pte_present, pte_addr_mask, pte_to_flags, set_entry, vmm_query,
  query_leaf, walk_leaf, at_child, is_offset,
}
use exyde.Kernel.Vmm.Walk.{
  IsPaged, look, walk, idx_at, idx_at-lt, through, page_of, through-congr, through-some, some-lem,
}

module _ (lvl : Ptr → ℕ) (parent : Ptr → Ptr × ℕ) (v : Vmm) (inv : IsPaged lvl parent v) where
  module _ (pt i e : ℕ) (at : lvl pt ≡ 1) where
    rewritten : Ptr → ℕ → ℕ
    rewritten = set_entry pt i e v.tables

    rewritten-upper : (p n j : ℕ) → lvl p ≡ suc (suc n) → rewritten p j ≡ v.tables p j
    unfolding rewritten
    rewritten-upper p n j level =
        let off : (pt == p) ≡ false = ground (arith, ap lvl, at) in rw off refl

    rewritten-other : (p j : ℕ) → (p ≡ pt → j ≢ i) → rewritten p j ≡ v.tables p j
    unfolding rewritten
    rewritten-other p j other = elim (Bool-cases (pt == p)) [
      | inr off ↦ rw off refl
      | inl here ↦
          let same : pt ≡ p = ground arith in
          let off : (i == j) ≡ false = ground (arith, other (sym same)) in
          rw (here, off) (ap (λ q. v.tables q j) same)
    ]

    -- An address that does not lead to the entry.
    pub write-elsewhere :
        (n p va : ℕ)
        → lvl p ≡ suc n
        → (walk v.tables n p va ≡ some pt → idx_pt va ≢ i)
        → look (set_entry pt i e v.tables) n p va ≡ look v.tables n p va
    unfolding rewritten
    write-elsewhere zero p va level other =
        ap page_of (rewritten-other p (idx_pt va) (λ same. other (ap (λ q. some q) same)))
    write-elsewhere (suc n) p va level other =
        let j = idx_at (suc n) va in
        ap (λ x. through (λ c. look rewritten n c va) (child_of x)) (rewritten-upper p n j level)
        ∙ through-congr (λ c. look rewritten n c va) (λ c. look v.tables n c va)
            (child_of (v.tables p j))
            (λ c is.
              write-elsewhere n c va (inv.typed p j n c (idx_at-lt (suc n) va) level is).0
                (λ w. other (ap (through (λ c. walk v.tables n c va)) is ∙ w)))

    -- An address that leads to it.
    pub write-here :
        (n p va : ℕ)
        → lvl p ≡ suc n
        → walk v.tables n p va ≡ some pt
        → idx_pt va ≡ i
        → look (set_entry pt i e v.tables) n p va ≡ page_of e
    unfolding rewritten
    write-here zero p va level w same =
        let here : (pt == p) ≡ true = ground (arith, some-lem w) in
        let here' : (i == idx_pt va) ≡ true = ground arith in rw (here, here') refl
    write-here (suc n) p va level w same =
        let j = idx_at (suc n) va in
        let (c, is, w') = through-some (λ c. walk v.tables n c va) (child_of (v.tables p j)) pt w in
        ap (λ x. through (λ c. look rewritten n c va) (child_of x)) (rewritten-upper p n j level)
        ∙ ap (through (λ c. look rewritten n c va)) is
        ∙ write-here n c va (inv.typed p j n c (idx_at-lt (suc n) va) level is).0 w' same

    pub write-IsPaged : IsPaged lvl parent (record v { tables = set_entry pt i e v.tables })
    unfolding rewritten
    write-IsPaged = record {
      typed = λ p j k c lt level is.
          inv.typed p j k c lt level (ap child_of (sym (rewritten-upper p k j level)) ∙ is);
      kept = inv.kept;
      nonnull = inv.nonnull;
      valid = inv.valid;
      bounded = inv.bounded;
    }

-- What a query returns for an entry.
abbrev pub decode : Option ℕ → Option (ℕ × ℕ)
decode none = none
decode (some e) = some (bit_and e pte_addr_mask, pte_to_flags e)

module _ (lvl : Ptr → ℕ) (parent : Ptr → Ptr × ℕ) (v : Vmm) (inv : IsPaged lvl parent v)
    (va : ℕ) where
  leaf-look : (pt : Ptr) → lvl pt ≡ 1 → query_leaf va v pt ≡ decode (look v.tables 0 pt va)
  leaf-look pt level =
      let on : (pt == null) ≡ false = ground (arith, inv.nonnull, ap lvl) in
      elim (Bool-cases (test_flag (v.tables pt (idx_pt va)) pte_present)) [
        | inl there ↦ rw (on, there) refl
        | inr absent ↦ rw (on, absent) refl
      ]

  by_child :
      (next : Ptr → Ptr) (n : ℕ) (o : Option Ptr)
      → ((c : Ptr) → o ≡ some c → query_leaf va v (next c) ≡ decode (look v.tables n c va))
      → query_leaf va v (at_child next o) ≡ decode (through (λ c. look v.tables n c va) o)
  by_child next n none each = refl
  by_child next n (some c) each = each c refl

  pub query-look :
      (space : Ptr)
      → (space == null) ≡ false
      → is_offset va ≡ false
      → lvl (v.spaces space).pml4 ≡ 4
      → vmm_query space va v ≡ decode (look v.tables 3 (v.spaces space).pml4 va)
  unfolding vmm_query walk_leaf
  query-look space there even level =
      rw (there, even)
        (by_child
          (λ pdpt.
            at_child (λ pd. at_child (λ pt. pt) (child_of (v.tables pd (idx_at 1 va))))
              (child_of (v.tables pdpt (idx_at 2 va))))
          2 (child_of (v.tables (v.spaces space).pml4 (idx_at 3 va)))
          (λ c is.
            let (l₂, _) =
              inv.typed (v.spaces space).pml4 (idx_at 3 va) 2 c (idx_at-lt 3 va) level is in
            by_child (λ pd. at_child (λ pt. pt) (child_of (v.tables pd (idx_at 1 va)))) 1
              (child_of (v.tables c (idx_at 2 va)))
              (λ d is'.
                let (l₁, _) = inv.typed c (idx_at 2 va) 1 d (idx_at-lt 2 va) l₂ is' in
                by_child (λ pt. pt) 0 (child_of (v.tables d (idx_at 1 va)))
                  (λ t is''.
                    leaf-look t (inv.typed d (idx_at 1 va) 0 t (idx_at-lt 1 va) l₁ is'').0))))
