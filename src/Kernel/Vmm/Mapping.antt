-- ===== src/Kernel/Vmm/Mapping.antt =====
-- An address space as a map from addresses of pages to physical addresses and flags.
use exyde.Common.{
  ℕ, ◌^◌, ◌<◌, ◌≡◌, inl, inr, refl, ap, ◌∙◌, sym, false, Option, some, ◌==◌, update, arith,
  Bool-cases,
}
use exyde.Kernel.Chain.{Ptr, null}
use exyde.Kernel.Vmm.{Vmm, idx_pt, set_entry, vmm_query, is_offset}
use exyde.Kernel.Vmm.Entry.{aligned}
use exyde.Kernel.Vmm.Walk.{IsPaged, look, walk, page_of, walk-Agree, Agree-same}
use exyde.Kernel.Vmm.Leaf.{write-elsewhere, write-here, write-IsPaged, decode, query-look}

-- The tables of one space, and what it maps: `f` at the addresses of pages below 2 ^ 48.
pub record Holds (root : Ptr) (f : ℕ → Option (ℕ × ℕ)) (lvl : Ptr → ℕ) (parent : Ptr → Ptr × ℕ)
    (v : Vmm) : Type 0 where
  pub paged : IsPaged lvl parent v
  pub level : lvl root ≡ 4
  pub reads :
      (vb : ℕ) → is_offset vb ≡ false → vb < 2 ^ 48 → decode (look v.tables 3 root vb) ≡ f vb

pub record IsMap (space : Ptr) (f : ℕ → Option (ℕ × ℕ)) (v : Vmm) : Type 0 where
  pub lvl : Ptr → ℕ
  pub parent : Ptr → Ptr × ℕ
  pub paged : IsPaged lvl parent v
  pub level : lvl (v.spaces space).pml4 ≡ 4
  pub reads : (vb : ℕ) → is_offset vb ≡ false → vb < 2 ^ 48 → vmm_query space vb v ≡ f vb

pub IsMap-Holds :
    (space : Ptr) (f : ℕ → Option (ℕ × ℕ)) (v : Vmm)
    → (space == null) ≡ false
    → (inv : IsMap space f v) → Holds (v.spaces space).pml4 f inv.lvl inv.parent v
IsMap-Holds space f v there inv = record {
  paged = inv.paged;
  level = inv.level;
  reads = λ vb even small.
      sym (query-look inv.lvl inv.parent v inv.paged vb space there even inv.level)
      ∙ inv.reads vb even small;
}

pub Holds-IsMap :
    (space : Ptr) (f : ℕ → Option (ℕ × ℕ)) (v : Vmm) (root : Ptr) (lvl : Ptr → ℕ)
    (parent : Ptr → Ptr × ℕ)
    → (space == null) ≡ false
    → (v.spaces space).pml4 ≡ root
    → Holds root f lvl parent v
    → IsMap space f v
Holds-IsMap space f v root lvl parent there at h =
    let level = ap lvl at ∙ h.level in
    record {
      lvl = lvl;
      parent = parent;
      paged = h.paged;
      level = level;
      reads = λ vb even small.
          query-look lvl parent v h.paged vb space there even level
          ∙ ap (λ r. decode (look v.tables 3 r vb)) at
          ∙ h.reads vb even small;
    }

-- A write of the entry that an address leads to changes the map there alone.
module _ (root : Ptr) (f : ℕ → Option (ℕ × ℕ)) (lvl : Ptr → ℕ) (parent : Ptr → Ptr × ℕ) (v : Vmm)
    (h : Holds root f lvl parent v) (va : ℕ) (even : is_offset va ≡ false) (small : va < 2 ^ 48)
    (pt : Ptr) (at : lvl pt ≡ 1) (path : walk v.tables 3 root va ≡ some pt) where
  pub write-Holds :
      (e : ℕ) (g : Option (ℕ × ℕ))
      → decode (page_of e) ≡ g
      → Holds root
          (update f va g)
          lvl
          parent
          (record v { tables = set_entry pt (idx_pt va) e v.tables })
  write-Holds e g is = record {
    paged = write-IsPaged lvl parent v h.paged pt (idx_pt va) e at;
    level = h.level;
    reads = λ vb even' small'. elim (Bool-cases (va == vb)) [
      | inl here ↦
          let same : va ≡ vb = ground arith in
          rw here (
            ap (λ x. decode (look (set_entry pt (idx_pt va) e v.tables) 3 root x)) (sym same)
            ∙ ap decode
                (write-here lvl parent v h.paged pt (idx_pt va) e at 3 root va h.level path refl)
            ∙ is)
      | inr off ↦ rw off (
          ap decode (
            write-elsewhere lvl parent v h.paged pt (idx_pt va) e at 3 root vb h.level
              (λ w same. absurd (ground (arith, off, apart vb even' small' w same))))
          ∙ h.reads vb even' small')
    ];
  }
    where
      apart :
          (vb : ℕ)
          → is_offset vb ≡ false
          → vb < 2 ^ 48
          → walk v.tables 3 root vb ≡ some pt
          → idx_pt vb ≡ idx_pt va
          → va ≡ vb
      apart vb even' small' w same =
          let (_, agree) =
            walk-Agree lvl parent v h.paged 3 root root va vb pt h.level h.level path w in
          Agree-same va vb agree (sym same) (aligned va even) (aligned vb even') small small'
