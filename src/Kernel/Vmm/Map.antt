-- ===== src/Kernel/Vmm/Map.antt =====
-- `vmm_map` as a change of what an address space maps.
use exyde.Common.{
  ◌≤◌, ℕ, zero, suc, ◌%◌, ◌^◌, ◌<◌, ◌≡◌, inl, inr, refl, ap, ◌∙◌, sym, Bool, true, false, Option,
  some, none, ltb, ◌==◌, update, bit_and, bit_or, arith, Bool-cases,
}
use exyde.Kernel.Chain.{Ptr, null}
use exyde.Kernel.Vmm.{
  Vmm, test_flag, idx_pt, idx_pd, idx_pdpt, child_of, pte_present, pte_addr_mask, flags_to_pte,
  set_entry, vmm_map, map_from, map_leaf, in_table, is_offset, vm_present, vm_user, lower_bound,
  descend_or_alloc,
}
use exyde.Kernel.Vmm.Entry.{leaf_entry}
use exyde.Kernel.Vmm.Walk.{look, walk, idx_at, idx_at-lt, through, page_of, some-lem, through-some}
use exyde.Kernel.Vmm.Page.{Ready, Stepped}
use exyde.Kernel.Vmm.Step.{descend-Stepped}
use exyde.Kernel.Vmm.Leaf.{decode}
use exyde.Kernel.Vmm.Mapping.{Holds, IsMap, IsMap-Holds, Holds-IsMap, write-Holds}

-- What a walk ends at is what is read there.
pub look-walk :
    (tables : Ptr → ℕ → ℕ) (n p va pt : ℕ)
    → walk tables n p va ≡ some pt
    → look tables n p va ≡ page_of (tables pt (idx_pt va))
look-walk tables zero p va pt w = ap (λ q. page_of (tables q (idx_pt va))) (some-lem w)
look-walk tables (suc n) p va pt w =
    let (c, is, w') =
      through-some (λ c. walk tables n c va) (child_of (tables p (idx_at (suc n) va))) pt w in
    ap (through (λ c. look tables n c va)) is ∙ look-walk tables n c va pt w'

-- A map that is changed at `va` if the call succeeds, where nothing was mapped before.
abbrev pub Mapped : Ptr → (ℕ → Option (ℕ × ℕ)) → ℕ → ℕ × ℕ → Bool × Vmm → Type 0
Mapped space f va page (false, v) = IsMap space f v
Mapped space f va page (true, v) = (f va ≡ none) × IsMap space (update f va (some page)) v

module _ (space : Ptr) (there : (space == null) ≡ false) (f : ℕ → Option (ℕ × ℕ)) (root : Ptr)
    (va pa flags : ℕ) (even : is_offset va ≡ false) (small : va < 2 ^ 48)
    (even_pa : is_offset pa ≡ false) (small_pa : pa < 2 ^ 52)
    (on : test_flag flags vm_present ≡ true) where
  -- A call from a table that leads down `n` more tables: it succeeds where nothing is in the way.
  abbrev MapResult : ℕ → Ptr → Vmm → Bool × Vmm → Type 0
  MapResult n t v r =
      Mapped space f va (pa, flags % 16) r × (f va ≡ none → Ready n va t v → r.0 ≡ true)

  leaf-Mapped :
      (lvl : Ptr → ℕ) (parent : Ptr → Ptr × ℕ) (v : Vmm) (pt : Ptr)
      → Holds root f lvl parent v
      → (v.spaces space).pml4 ≡ root
      → lvl pt ≡ 1
      → walk v.tables 3 root va ≡ some pt
      → MapResult 0 pt v (map_leaf va pa flags pt v)
  leaf-Mapped lvl parent v pt h at level path =
      let e = bit_or (bit_and pa pte_addr_mask) (flags_to_pte flags) in
      let (present, address, bits) = leaf_entry pa flags even_pa small_pa on in
      elim (Bool-cases (test_flag (v.tables pt (idx_pt va)) pte_present)) [
        | inl taken ↦
            let is : page_of (v.tables pt (idx_pt va)) ≡ some (v.tables pt (idx_pt va)) =
              rw taken refl in
            let read =
              sym (h.reads va even small) ∙ ap decode (look-walk v.tables 3 root va pt path ∙ is) in
            rw taken (
              Holds-IsMap space f v root lvl parent there at h,
              λ unmapped ready. absurd (cc (unmapped, read)),
            )
        | inr absent ↦
            let before : page_of (v.tables pt (idx_pt va)) ≡ none = rw absent refl in
            let now : decode (page_of e) ≡ some (pa, flags % 16) =
              rw (present, address, bits) refl in
            rw absent (
              (
                sym (h.reads va even small)
                    ∙ ap decode (look-walk v.tables 3 root va pt path ∙ before),
                Holds-IsMap space (update f va (some (pa, flags % 16)))
                    (record v { tables = set_entry pt (idx_pt va) e v.tables }) root lvl parent
                    there at
                    (write-Holds root f lvl parent v h va even small pt level path e
                      (some (pa, flags % 16)) now),
              ),
              λ unmapped ready. refl,
            )
      ]

  -- A step keeps what is mapped.
  step-Holds :
      (lvl : Ptr → ℕ) (parent : Ptr → Ptr × ℕ) (v : Vmm) (k t i : ℕ) (r : Ptr × Vmm)
      → Holds root f lvl parent v
      → (st : Stepped lvl k t i v r) → Holds root f st.lvl' st.parent' r.1
  step-Holds lvl parent v k t i r h st = record {
    paged = st.paged;
    level = st.same root (omega (arith, h.level)) ∙ h.level;
    reads = λ vb even' small'. ap decode (st.looks 3 root vb h.level) ∙ h.reads vb even' small';
  }

  -- A call that goes on below the table that a step leads to, if it leads to one.
  in_table-Mapped :
      (next : Ptr → Vmm → Bool × Vmm) (lvl : Ptr → ℕ) (parent : Ptr → Ptr × ℕ) (v : Vmm) (k t : ℕ)
      (r : Ptr × Vmm)
      → Holds root f lvl parent v
      → (v.spaces space).pml4 ≡ root
      → (st : Stepped lvl k t (idx_at (suc k) va) v r)
      → (st.lvl' r.0 ≡ suc k
          → child_of (r.1.tables t (idx_at (suc k) va)) ≡ some r.0
          → MapResult k r.0 r.1 (next r.0 r.1))
      → MapResult (suc k) t v (in_table next r)
  in_table-Mapped next lvl parent v k t (c, w) h at st goes_on =
      let done =
        Holds-IsMap space f w root st.lvl' st.parent' there
          (ap (λ s. (s space).pml4) st.spaces ∙ at)
          (step-Holds lvl parent v k t (idx_at (suc k) va) (c, w) h st) in
      elim (Bool-cases (c == null)) [
        | inl z ↦
            rw z (done, λ unmapped ready. absurd ((st.ready va refl ready).0 (ground (arith, z))))
        | inr off ↦ elim st.child [
          | inl z ↦ absurd (ground (arith, off, z))
          | inr (level, is) ↦
              let (m, ok) = goes_on level is in
              rw off (m, λ unmapped ready. ok unmapped (st.ready va refl ready).1)
        ]
      ]

  -- The three steps down and the write.
  map_from-Mapped :
      (lvl : Ptr → ℕ) (parent : Ptr → Ptr × ℕ) (v : Vmm)
      → Holds root f lvl parent v
      → (v.spaces space).pml4 ≡ root
      → MapResult 3 root v (map_from va pa flags root v)
  map_from-Mapped lvl parent v h at =
      let user = test_flag flags vm_user in
      let st =
        descend-Stepped lvl parent v h.paged 2 root (idx_at 3 va) h.level (idx_at-lt 3 va) user in
      in_table-Mapped
        (λ pdpt w.
          in_table
            (λ pd w'. in_table (map_leaf va pa flags) (descend_or_alloc pd (idx_pd va) user w'))
            (descend_or_alloc pdpt (idx_pdpt va) user w))
        lvl parent v 2 root (descend_or_alloc root (idx_at 3 va) user v) h at st
        (λ level is.
          second st.lvl' st.parent' (descend_or_alloc root (idx_at 3 va) user v).1
            (descend_or_alloc root (idx_at 3 va) user v).0
            (step-Holds lvl parent v 2 root (idx_at 3 va)
              (descend_or_alloc root (idx_at 3 va) user v) h st)
            (ap (λ s. (s space).pml4) st.spaces ∙ at) level is)
    where
      third :
          (lvl : Ptr → ℕ) (parent : Ptr → Ptr × ℕ) (v : Vmm) (pdpt pd : Ptr)
          → Holds root f lvl parent v
          → (v.spaces space).pml4 ≡ root
          → lvl pdpt ≡ 3
          → child_of (v.tables root (idx_at 3 va)) ≡ some pdpt
          → lvl pd ≡ 2
          → child_of (v.tables pdpt (idx_at 2 va)) ≡ some pd
          → MapResult 1 pd v (
              in_table
                (map_leaf va pa flags)
                (descend_or_alloc pd (idx_pd va) (test_flag flags vm_user) v))
      third lvl parent v pdpt pd h at l₃ is₃ l₂ is₂ =
          let user = test_flag flags vm_user in
          let r = descend_or_alloc pd (idx_at 1 va) user v in
          let st =
            descend-Stepped lvl parent v h.paged 0 pd (idx_at 1 va) l₂ (idx_at-lt 1 va) user in
          in_table-Mapped (map_leaf va pa flags) lvl parent v 0 pd r h at st (λ level is.
            leaf-Mapped st.lvl' st.parent' r.1 r.0
              (step-Holds lvl parent v 0 pd (idx_at 1 va) r h st)
              (ap (λ s. (s space).pml4) st.spaces ∙ at) level
              (ap (through (λ c. walk r.1.tables 2 c va))
                  (st.links root (idx_at 3 va) pdpt (omega (arith, h.level)) is₃)
                ∙ ap (through (λ c. walk r.1.tables 1 c va))
                    (st.links pdpt (idx_at 2 va) pd (omega (arith, l₃)) is₂)
                ∙ ap (through (λ c. walk r.1.tables 0 c va)) is))

      second :
          (lvl : Ptr → ℕ) (parent : Ptr → Ptr × ℕ) (v : Vmm) (pdpt : Ptr)
          → Holds root f lvl parent v
          → (v.spaces space).pml4 ≡ root
          → lvl pdpt ≡ 3
          → child_of (v.tables root (idx_at 3 va)) ≡ some pdpt
          → MapResult 2 pdpt v (
              in_table
                (λ pd w.
                  in_table
                    (map_leaf va pa flags)
                    (descend_or_alloc pd (idx_pd va) (test_flag flags vm_user) w))
                (descend_or_alloc pdpt (idx_pdpt va) (test_flag flags vm_user) v))
      second lvl parent v pdpt h at l₃ is₃ =
          let user = test_flag flags vm_user in
          let r = descend_or_alloc pdpt (idx_at 2 va) user v in
          let st =
            descend-Stepped lvl parent v h.paged 1 pdpt (idx_at 2 va) l₃ (idx_at-lt 2 va) user in
          in_table-Mapped
            (λ pd w. in_table (map_leaf va pa flags) (descend_or_alloc pd (idx_pd va) user w)) lvl
            parent v 1 pdpt r h at st
            (λ level is.
              third st.lvl' st.parent' r.1 pdpt r.0
                (step-Holds lvl parent v 1 pdpt (idx_at 2 va) r h st)
                (ap (λ s. (s space).pml4) st.spaces ∙ at) (st.same pdpt (omega (arith, l₃)) ∙ l₃)
                (st.links root (idx_at 3 va) pdpt (omega (arith, h.level)) is₃) level is)

-- In an address space that maps the pages of `f`, for addresses below 2 ^ 48 and 2 ^ 52, a mapping that
-- succeeds was of a page that was not mapped, and the space maps it with the four flags that are asked
-- for and the others as before; one that fails, for a bad argument, a page that is mapped, a huge page
-- in the way or for lack of memory, maps what it did.
pub map-Mapped :
    (space : Ptr) (f : ℕ → Option (ℕ × ℕ)) (v : Vmm) (va pa flags : ℕ)
    → IsMap space f v
    → va < 2 ^ 48
    → pa < 2 ^ 52
    → Mapped space f va (pa, flags % 16) (vmm_map space va pa flags v)
unfolding vmm_map
map-Mapped space f v va pa flags inv small small_pa = elim (Bool-cases (space == null)) [
  | inl z ↦ rw z inv
  | inr there ↦ elim (Bool-cases (is_offset va)) [
    | inl z ↦ rw (there, z) inv
    | inr even ↦ elim (Bool-cases (is_offset pa)) [
      | inl z ↦ rw (there, even, z) inv
      | inr even_pa ↦ elim (Bool-cases (ltb va (lower_bound space v))) [
        | inl z ↦ rw (there, even, even_pa, z) inv
        | inr above ↦ elim (Bool-cases (test_flag flags vm_present)) [
          | inr z ↦ rw (there, even, even_pa, above, z) inv
          | inl on ↦
              rw (there, even, even_pa, above, on)
                (map_from-Mapped space there f (v.spaces space).pml4 va pa flags even small even_pa
                  small_pa on inv.lvl inv.parent v (IsMap-Holds space f v there inv) refl).0
        ]
      ]
    ]
  ]
]

-- In an address space that maps the pages of `f`, with page 0 in use, three free pages and no huge page on
-- the way to the address in the tables, a mapping succeeds for a page of the space below 2 ^ 48 that is
-- not mapped, with a physical address below 2 ^ 52 that is aligned, and with the flag for present pages.
pub map_succeeds :
    (space : Ptr) (f : ℕ → Option (ℕ × ℕ)) (v : Vmm) (va pa flags : ℕ)
    → IsMap space f v
    → va < 2 ^ 48
    → pa < 2 ^ 52
    → (space == null) ≡ false
    → is_offset va ≡ false
    → is_offset pa ≡ false
    → lower_bound space v ≤ va
    → test_flag flags vm_present ≡ true
    → f va ≡ none
    → Ready 3 va (v.spaces space).pml4 v
    → (vmm_map space va pa flags v).0 ≡ true
unfolding vmm_map
map_succeeds space f v va pa flags inv small small_pa there even even_pa low on unmapped ready =
    let above : ltb va (lower_bound space v) ≡ false = ground arith in
    rw (there, even, even_pa, above, on)
      ((map_from-Mapped space there f (v.spaces space).pml4 va pa flags even small even_pa small_pa
          on inv.lvl inv.parent v (IsMap-Holds space f v there inv) refl).1
        unmapped ready)
