-- ===== src/Kernel/Pmm/Free.antt =====
-- `pmm_free_pages`: what it accepts, what it changes, and that it undoes an allocation.
use exyde.Common.{
  ℕ, ◌+◌, ◌*◌, ◌/◌, ◌%◌, ◌^◌, ◌≤◌, ◌<◌, ◌≡◌, ◌≢◌, ◌↔◌, refl, ap, ◌∙◌, sym, Bool, true, false, arith,
  Bool-cases, inl, inr,
}
use exyde.Kernel.Pmm.{
  Pmm, page_size, used_get, resv_get, clear_range, pmm_alloc_pages, pmm_free_pages, get_bit,
}
use exyde.Kernel.Pmm.Bitmap.{page_offset}
use exyde.Kernel.Pmm.Range.{
  OnlyUsed, clear_range-OnlyUsed, clear_range-get, set_range-OnlyUsed, set_range-get, free_below,
  clear_range-free_below, set_range-free_below, free_below-le, may_free-true, may_free_of,
}
use exyde.Kernel.Pmm.Alloc.{
  IsValid, IsFree, Outcome, found, failed, taken, alloc-Outcome, alloc-IsValid,
}

-- The ranges that may be freed: not empty, aligned, below the top, all used, none reserved.
pub record MayFree (p : Pmm) (page count : ℕ) : Type 0 where
  pub some_pages : 0 < count
  pub aligned : page % page_size ≡ 0
  pub below : page + count * page_size ≤ p.max_paddr
  pub pages :
      (q : ℕ)
      → page / page_size ≤ q
      → q < page / page_size + count
      → (used_get p q ≡ true) × (resv_get p q ≡ false)

-- The state after the range is freed.
abbrev pub freed : Pmm → ℕ → ℕ → Pmm
freed p page count =
    let p' = clear_range count (page / page_size) p in
    record p' { free_pages = (p'.free_pages + count) % 2 ^ 64 }

module _ {p : Pmm} (v : IsValid p) (page count : ℕ) where
  pub free_of_MayFree :
      MayFree p page count → pmm_free_pages p page count ≡ (true, freed p page count)
  unfolding pmm_free_pages
  free_of_MayFree m = ground (
    arith,
    page_offset page,
    v.small,
    m.some_pages,
    m.aligned,
    m.below,
    may_free_of count (page / page_size) p m.pages,
  )

  MayFree-of_free :
      count < 2 ^ 50 → page < 2 ^ 63 → (pmm_free_pages p page count).0 ≡ true → MayFree p page count
  unfolding pmm_free_pages
  MayFree-of_free few low h = record {
    some_pages = ground (arith, page_offset page);
    aligned = ground (arith, page_offset page);
    below = ground (arith, page_offset page, v.small);
    pages =
        λ q a b. may_free-true count (page / page_size) p q (ground (arith, page_offset page)) a b;
  }

  -- In a valid state, for a count below 2 ^ 50 and an address below 2 ^ 63, `pmm_free_pages` succeeds
  -- exactly on the ranges that may be freed: so it refuses a page that is free already, and one that
  -- is reserved.
  pub free_iff :
      count < 2 ^ 50
      → page < 2 ^ 63
      → ((pmm_free_pages p page count).0 ≡ true) ↔ MayFree p page count
  free_iff few low =
      (MayFree-of_free few low, λ m. ap (λ (r : Bool × Pmm). r.0) (free_of_MayFree m))

  pub free-failed : (pmm_free_pages p page count).0 ≡ false → (pmm_free_pages p page count).1 ≡ p
  unfolding pmm_free_pages
  free-failed h = ground arith

  freed-IsValid : MayFree p page count → IsValid (freed p page count)
  unfolding free_below
  freed-IsValid m = record {
    counted = rw same.total_pages (
        omega (
          arith,
          same.free_pages,
          v.counted,
          v.small,
          v.tracked,
          m.below,
          m.aligned,
          free_below-le p.total_pages p,
          clear_range-free_below count (page / page_size) p.total_pages p
              (omega (arith, v.tracked, m.below, m.aligned)) (λ q a b. (m.pages q a b).0),
        ));
    reserved = λ q lt h.
        let before : resv_get p q ≡ true = rw same.resv_bitmap at h in
        let below : q < p.total_pages = rw same.total_pages at lt in
        rw (clear_range-get count (page / page_size) p q)
          (ground (arith, m.pages q, v.reserved q below before));
    tracked = same.max_paddr ∙ v.tracked ∙ ap (λ t. t * page_size) (sym same.total_pages);
    small = omega (arith, same.max_paddr, v.small);
  }
    where
      same : OnlyUsed p (clear_range count (page / page_size) p)
      same = clear_range-OnlyUsed count (page / page_size) p

  -- For a count below 2 ^ 50 and an address below 2 ^ 63, `pmm_free_pages` keeps the allocator valid,
  -- whether it succeeds or not.
  pub free-IsValid : count < 2 ^ 50 → page < 2 ^ 63 → IsValid (pmm_free_pages p page count).1
  free-IsValid few low = elim (Bool-cases (pmm_free_pages p page count).0) [
    | inl success ↦
        let m = MayFree-of_free few low success in rw (free_of_MayFree m) (freed-IsValid m)
    | inr failure ↦ rw (free-failed failure) v
  ]

module _ {p : Pmm} (v : IsValid p) (count : ℕ) (pos : 0 < count) where
  taken-MayFree :
      (start : ℕ)
      → start + count ≤ p.total_pages
      → IsFree p start count
      → MayFree (taken p start count) (start * page_size) count
  taken-MayFree start fits free = record {
    some_pages = pos;
    aligned = omega arith;
    below = omega (arith, (set_range-OnlyUsed count start p).max_paddr, v.tracked);
    pages = λ q a b.
        let unused : used_get p q ≡ false = free q (omega arith) (omega arith) in
        let same : resv_get (taken p start count) q ≡ resv_get p q =
          ap (λ bitmap. get_bit bitmap q) (set_range-OnlyUsed count start p).resv_bitmap in
        (ground (arith, set_range-get count start p q), ground (arith, v.reserved q (omega arith)));
  }

  -- What `free` does to the state after `alloc`.
  record Restored (r : Bool × Pmm) : Type 0 where
    pub done : r.0 ≡ true
    pub free_pages : r.1.free_pages ≡ p.free_pages
    pub pages : (q : ℕ) → used_get r.1 q ≡ used_get p q

  taken-Restored :
      (start : ℕ)
      → start + count ≤ p.total_pages
      → IsFree p start count
      → IsValid (taken p start count)
      → Restored (pmm_free_pages (taken p start count) (start * page_size) count)
  taken-Restored start fits free v' =
      rw (free_of_MayFree v' (start * page_size) count (taken-MayFree start fits free)) (record {
        done = refl;
        free_pages = omega (
          arith,
          (clear_range-OnlyUsed count (start * page_size / page_size)
              (taken p start count)).free_pages,
          (set_range-OnlyUsed count start p).free_pages,
          set_range-free_below count start p.total_pages p fits free,
          v.counted,
          v.tracked,
          v.small,
          free_below-le p.total_pages p,
        );
        pages = λ q. ground (
          arith,
          clear_range-get count (start * page_size / page_size) (taken p start count) q,
          set_range-get count start p q,
          free q,
        );
      })

  Outcome-Restored :
      {r : ℕ × Pmm}
      → Outcome p count 0 r
      → IsValid r.1
      → r.0 ≢ 0
      → Restored (pmm_free_pages r.1 r.0 count)
  Outcome-Restored (found start fits free first e) v' ne =
      rw e (taken-Restored start fits free (rw e at v'))
  Outcome-Restored (failed e none_fits) v' ne = absurd (ne (ap (λ (r : ℕ × Pmm). r.0) e))

  -- In a valid state, what a positive allocation returned, where that is not 0, can be freed, and
  -- that restores the state of every page and the counter.
  pub free-alloc :
      (pmm_alloc_pages p count).0 ≢ 0
      → let (page, p') = pmm_alloc_pages p count in
        let (done, p'') = pmm_free_pages p' page count in
        (done ≡ true) × (p''.free_pages ≡ p.free_pages) × ((q : ℕ) → used_get p'' q ≡ used_get p q)
  free-alloc ne =
      let r = Outcome-Restored (alloc-Outcome v count pos) (alloc-IsValid v count) ne in
      (r.done, r.free_pages, r.pages)
