-- ===== src/Kernel/Vmm/NewTable.antt =====
-- A step down the tables that puts a new table in an entry.
use exyde.Common.{
  ℕ, zero, suc, ◌*◌, ◌/◌, ◌^◌, ◌<◌, ◌≡◌, ◌≢◌, ◌⊎◌, inl, inr, refl, ap, ap₂, ◌∙◌, sym, Bool, true,
  false, some, none, ◌==◌, update, bit_or, arith, Bool-cases, fill_lem,
}
use exyde.Kernel.Chain.{Ptr, null}
use exyde.Kernel.Pmm.{Pmm, used_get, page_size}
use exyde.Kernel.Vmm.{
  Vmm, test_flag, idx_pt, child_of, pte_present, pte_user, pte_write, or_if, new_table, set_entry,
  zero_page,
}
use exyde.Kernel.Vmm.Entry.{table_entry}
use exyde.Kernel.Vmm.Walk.{
  IsPaged, IsClear-zeros, look, idx_at, idx_at-lt, look-zeros, through, page_of, through-congr,
  some-lem,
}
use exyde.Kernel.Vmm.Page.{Ready, Page, Stepped}

-- A new table of zeros in an entry that was absent.
module _ (lvl : Ptr → ℕ) (parent : Ptr → Ptr × ℕ) (v : Vmm) (inv : IsPaged lvl parent v) (k t i : ℕ)
    (at : lvl t ≡ suc (suc k)) (in_table : i < 512)
    (absent : test_flag (v.tables t i) pte_present ≡ false) (m : ℕ) (small : m < 2 ^ 40)
    (unused : used_get v.pmm m ≡ false) (pos : 0 < m) (user : Bool) where
  np : Ptr
  np = m * 4096

  entry : ℕ
  entry = bit_or np (or_if user pte_user (bit_or pte_present pte_write))

  grown : Ptr → ℕ → ℕ
  grown = set_entry t i entry (zero_page np v.tables)

  lvl_new : Ptr → ℕ
  lvl_new = update lvl np (suc k)

  parent_new : Ptr → Ptr × ℕ
  parent_new = update parent np (t, i)

  np-free : lvl np ≡ 0
  unfolding np
  np-free = elim (Bool-cases (lvl (m * 4096) == 0)) [
    | inl z ↦ ground arith
    | inr z ↦
        let page : m * 4096 / page_size ≡ m = omega arith in
        absurd (ground (arith, inv.kept (m * 4096) (ground arith), ap (used_get v.pmm) page))
  ]

  np-pos : 0 < np
  unfolding np
  np-pos = omega arith

  -- The entries of the new state.
  grown-zeros : (j : ℕ) → j < 512 → grown np j ≡ 0
  unfolding grown
  grown-zeros j lt =
      let free = np-free in
      let off : (t == np) ≡ false = ground (arith, ap lvl) in
      let here : (np == np) ≡ true = ground arith in
      rw (off, here) (fill_lem 512 0 0 (v.tables np) j ∙ ground arith)

  grown-other : (p j : ℕ) → p ≢ np → (p ≢ t) ⊎ (j ≢ i) → grown p j ≡ v.tables p j
  unfolding grown
  grown-other p j away (inl other) =
      let off : (t == p) ≡ false = ground arith in
      let off' : (np == p) ≡ false = ground arith in rw (off, off') refl
  grown-other p j away (inr other) =
      let off : (i == j) ≡ false = ground arith in
      let off' : (np == p) ≡ false = ground arith in
      elim (Bool-cases (t == p)) [
        | inl z ↦
            let e : t ≡ p = ground arith in
            let off'' : (np == t) ≡ false = ground arith in
            rw (z, off, off'') (ap (λ q. v.tables q j) e)
        | inr z ↦ rw (z, off') refl
      ]

  grown-at : grown t i ≡ entry
  unfolding grown
  grown-at =
      let here : (t == t) ≡ true = ground arith in
      let here' : (i == i) ≡ true = ground arith in rw (here, here') refl

  child_of-entry : child_of entry ≡ some np
  unfolding entry np
  child_of-entry = table_entry m user small

  child_of-absent : child_of (v.tables t i) ≡ none
  child_of-absent = rw absent refl

  -- An entry of the new state is one of the new table, the new one, or an old one.
  at_entry : (p j : ℕ) → (p ≡ np) ⊎ ((p ≡ t) × (j ≡ i)) ⊎ ((p ≢ np) × (grown p j ≡ v.tables p j))
  at_entry p j = elim (Bool-cases (p == np)) [
    | inl z ↦ inl (ground arith)
    | inr z ↦
        let away : p ≢ np = λ e. ground (arith, e) in
        elim (Bool-cases (p == t)) [
          | inr other ↦ inr (inr (away, grown-other p j away (inl (λ e. ground (arith, e)))))
          | inl here ↦ elim (Bool-cases (j == i)) [
            | inr other ↦ inr (inr (away, grown-other p j away (inr (λ e. ground (arith, e)))))
            | inl same ↦ inr (inl (ground arith, ground arith))
          ]
        ]
  ]

  grown-links :
      (p j c : ℕ) → 0 < lvl p → child_of (v.tables p j) ≡ some c → child_of (grown p j) ≡ some c
  grown-links p j c pos e = elim (at_entry p j) [
    | inl new ↦ absurd (omega (arith, ap lvl new, np-free))
    | inr (inl (here, same)) ↦
        absurd (cc (child_of-absent, ap₂ (λ q x. child_of (v.tables q x)) here same, e))
    | inr (inr (away, old)) ↦ ap child_of old ∙ e
  ]

  grown-looks : (n p va : ℕ) → lvl p ≡ suc n → look grown n p va ≡ look v.tables n p va
  grown-looks zero p va level = elim (at_entry p (idx_pt va)) [
    | inl new ↦ absurd (omega (arith, ap lvl new, np-free))
    | inr (inl (here, same)) ↦ absurd (omega (arith, ap lvl here))
    | inr (inr (away, old)) ↦ ap page_of old
  ]
  grown-looks (suc n) p va level = elim (at_entry p (idx_at (suc n) va)) [
    | inl new ↦ absurd (omega (arith, ap lvl new, np-free))
    | inr (inl (here, same)) ↦
        let now : child_of (grown p (idx_at (suc n) va)) ≡ some np =
          ap₂ (λ q x. child_of (grown q x)) here same ∙ ap child_of grown-at ∙ child_of-entry in
        let before : child_of (v.tables p (idx_at (suc n) va)) ≡ none =
          ap₂ (λ q x. child_of (v.tables q x)) here same ∙ child_of-absent in
        ap (through (λ c. look grown n c va)) now
        ∙ look-zeros grown n np va grown-zeros
        ∙ sym (ap (through (λ c. look v.tables n c va)) before)
    | inr (inr (away, old)) ↦
        ap (λ e. through (λ c. look grown n c va) (child_of e)) old
        ∙ through-congr (λ c. look grown n c va) (λ c. look v.tables n c va)
            (child_of (v.tables p (idx_at (suc n) va)))
            (λ c is.
              grown-looks n c va
                (inv.typed p (idx_at (suc n) va) n c (idx_at-lt (suc n) va) level is).0)
  ]

  grown-typed :
      (p j n c : ℕ)
      → j < 512
      → lvl_new p ≡ suc (suc n)
      → child_of (grown p j) ≡ some c
      → (lvl_new c ≡ suc n) × (parent_new c ≡ (p, j))
  unfolding lvl_new parent_new test_flag
  grown-typed p j n c lt level e = elim (at_entry p j) [
    | inl new ↦
        let zeros : child_of (grown p j) ≡ none =
          ap (λ q. child_of (grown q j)) new ∙ ap child_of (grown-zeros j lt) in
        absurd (cc (zeros, e))
    | inr (inl (here, same)) ↦
        let now : child_of (grown p j) ≡ some np =
          ap₂ (λ q x. child_of (grown q x)) here same ∙ ap child_of grown-at ∙ child_of-entry in
        let it : np ≡ c = some-lem (sym now ∙ e) in
        let on : (np == c) ≡ true = ground (arith, it) in
        let off : (np == p) ≡ false = ground (arith, ap lvl here, np-free, ap lvl) in
        let level' : lvl p ≡ suc (suc n) = rw off at level in
        rw on (omega (arith, level', ap lvl here), ap₂ (λ q x. (q, x)) (sym here) (sym same))
    | inr (inr (away, old)) ↦
        let off : (np == p) ≡ false = ground (arith, away) in
        let level' : lvl p ≡ suc (suc n) = rw off at level in
        let (level'', from) = inv.typed p j n c lt level' (ap child_of (sym old) ∙ e) in
        let off' : (np == c) ≡ false = ground (arith, level'', np-free, ap lvl) in
        rw off' (level'', from)
  ]

  module _ (pmm : Pmm) (page : Page v.pmm (np, pmm)) (now_used : used_get pmm m ≡ true) where
    after : Vmm
    after = record v { tables = grown; pmm = pmm }

    page_at : (p : Ptr) → (np == p) ≡ true → p / page_size ≡ m
    unfolding np
    page_at p here = ground (arith, here)

    after-IsPaged : IsPaged lvl_new parent_new after
    unfolding after lvl_new
    after-IsPaged = record {
      typed = grown-typed;
      kept = λ p pos. elim (Bool-cases (np == p)) [
        | inl here ↦ let q : p / page_size ≡ m = page_at p here in ap (used_get pmm) q ∙ now_used
        | inr off ↦ page.still (p / page_size) (inv.kept p (rw off at pos))
      ];
      nonnull =
          let pos' = np-pos in let off : (np == null) ≡ false = ground arith in rw off inv.nonnull;
      valid = page.valid;
      bounded = omega (arith, page.top, inv.bounded);
    }

    after-Ready : (n va : ℕ) → Ready (suc n) va t v → Ready n va np after
    unfolding after
    after-Ready n va ready = record {
      pages = omega (arith, page.spent, ready.pages);
      locked = page.still 0 ready.locked;
      clear = IsClear-zeros grown n np va grown-zeros;
    }

    after-Stepped : Stepped lvl k t i v (np, after)
    unfolding after lvl_new
    after-Stepped = record {
      lvl' = lvl_new;
      parent' = parent_new;
      paged = after-IsPaged;
      spaces = refl;
      same = λ p pos. let off : (np == p) ≡ false = ground (arith, np-free, ap lvl) in rw off refl;
      links = grown-links;
      looks = grown-looks;
      child = inr (
        let here : (np == np) ≡ true = ground arith in rw here refl,
        ap child_of grown-at ∙ child_of-entry,
      );
      ready = λ va e ready. (λ z. absurd (omega (arith, np-pos, z)), after-Ready k va ready);
    }

-- A step with the page that was asked for, if there is one.
pub new_table-Stepped :
    (lvl : Ptr → ℕ) (parent : Ptr → Ptr × ℕ) (v : Vmm)
    → IsPaged lvl parent v
    → (k t i : ℕ) → lvl t ≡ suc (suc k)
    → i < 512
    → (user : Bool) → test_flag (v.tables t i) pte_present ≡ false
    → (r : ℕ × Pmm) → Page v.pmm r
    → Stepped lvl k t i v (new_table t i user v r)
unfolding np after grown entry
new_table-Stepped lvl parent v inv k t i at lt user absent (np, pmm) page =
    elim (Bool-cases (np == 0)) [
      | inl z ↦ rw z (record {
        lvl' = lvl;
        parent' = parent;
        paged = record {
          typed = inv.typed;
          kept = λ p pos. page.still (p / page_size) (inv.kept p pos);
          nonnull = inv.nonnull;
          valid = page.valid;
          bounded = omega (arith, page.top, inv.bounded);
        };
        spaces = refl;
        same = λ p pos. refl;
        links = λ p j c pos e. e;
        looks = λ n p va level. refl;
        child = inl refl;
        ready = λ va e ready.
            absurd (page.nonzero (omega (arith, ready.pages)) ready.locked (ground (arith, z)));
      })
      | inr off ↦ elim page.fresh [
        | inl none_left ↦ ground arith
        | inr (m, e, small, unused, now_used) ↦
            let pos : 0 < m = ground (arith, e) in
            let off' : (m * 4096 == 0) ≡ false = ground arith in
            coe 1 0 (x. Stepped lvl k t i v (new_table t i user v (e x, pmm))) (
              rw off' (
                after-Stepped lvl parent v inv k t i at lt absent m small unused pos user pmm
                  (coe 0 1 (x. Page v.pmm (e x, pmm)) page) now_used))
      ]
    ]
