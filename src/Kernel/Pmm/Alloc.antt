-- ===== src/Kernel/Pmm/Alloc.antt =====
-- `pmm_alloc_pages`: the lowest run of free pages that is long enough, or nothing at all.
use exyde.Common.{
  ℕ, zero, suc, ◌+◌, ◌-◌, ◌*◌, ◌^◌, ◌≤◌, ◌<◌, ◌≡◌, ◌⊎◌, ◌↔◌, refl, ap, ◌∙◌, sym, true, false, arith,
  ◌==◌, leb, ltb, ◌&&◌, if◌then◌else◌, Bool-cases, inl, inr,
}
use exyde.Kernel.Pmm.{Pmm, page_size, used_get, resv_get, alloc_loop, set_range, pmm_alloc_pages}
use exyde.Kernel.Pmm.Range.{
  OnlyUsed, set_range-OnlyUsed, set_range-get, free_below, set_range-free_below,
}

-- The state between calls: the counter is right, a reserved page is used, and the pages tracked
-- are those below `max_paddr`.
pub record IsValid (p : Pmm) : Type 0 where
  pub counted : p.free_pages ≡ free_below p.total_pages p
  pub reserved : (q : ℕ) → q < p.total_pages → resv_get p q ≡ true → used_get p q ≡ true
  pub tracked : p.max_paddr ≡ p.total_pages * page_size
  pub small : p.max_paddr < 2 ^ 62

-- Every page of the run is free.
abbrev pub IsFree : Pmm → ℕ → ℕ → Type 0
IsFree p start count = (q : ℕ) → start ≤ q → q < start + count → used_get p q ≡ false

-- Some page of the run is in use.
abbrev pub IsBlocked : Pmm → ℕ → ℕ → Type 0
IsBlocked p start count = (q : ℕ) × (start ≤ q) × (q < start + count) × (used_get p q ≡ true)

-- The state after the run is taken.
abbrev pub taken : Pmm → ℕ → ℕ → Pmm
taken p start count =
    let p' = set_range count start p in record p' { free_pages = p'.free_pages - count }

-- The lowest free run from `lo` on is returned and taken; or there is none, and 0 is returned.
pub data Outcome (p : Pmm) (count lo : ℕ) (r : ℕ × Pmm) : Type 0 where
  found :
      (start : ℕ)
      → start + count ≤ p.total_pages
      → IsFree p start count
      → ((s : ℕ) → lo ≤ s → s < start → IsBlocked p s count)
      → r ≡ (start * page_size, taken p start count)
      → Outcome p count lo r
  failed :
      r ≡ (0, p)
      → ((s : ℕ) → lo ≤ s → s + count ≤ p.total_pages → IsBlocked p s count)
      → Outcome p count lo r

-- The same from a lower bound on, if the runs in between are blocked.
widen :
    {p : Pmm} {count hi : ℕ} {r : ℕ × Pmm} (lo : ℕ)
    → Outcome p count hi r
    → ((s : ℕ) → lo ≤ s → s < hi → IsBlocked p s count)
    → Outcome p count lo r
widen {hi} lo (found start fits free first e) between =
    found start fits free
      (λ s a b. elim (Bool-cases (ltb s hi)) [
        | inl low ↦ between s a (ground arith)
        | inr high ↦ first s (ground arith) b
      ])
      e
widen {hi} lo (failed e none_fits) between = failed e λ s a b. elim (Bool-cases (ltb s hi)) [
  | inl low ↦ between s a (ground arith)
  | inr high ↦ none_fits s (ground arith) b
]

-- `run` pages behind `i` are free.
alloc_loop-Outcome :
    (n i run count lo : ℕ) (p : Pmm)
    → i + n ≡ p.total_pages
    → p.total_pages * page_size < 2 ^ 64
    → lo + run ≡ i
    → run < count
    → IsFree p lo run
    → Outcome p count lo (alloc_loop n i run count p)
unfolding alloc_loop
alloc_loop-Outcome zero i run count lo p e small at short free =
    failed refl (λ s a b. absurd (omega arith))
alloc_loop-Outcome (suc n) i run count lo p e small at short free =
    elim (Bool-cases (used_get p i)) [
      | inl used ↦ rw used (
          widen lo
            (alloc_loop-Outcome n (i + 1) 0 count (i + 1) p (omega arith) small (omega arith)
              (omega arith) (λ q a b. absurd (omega arith)))
            (λ s a b. (i, omega arith, omega arith, used)))
      | inr unused ↦
          let longer : IsFree p lo (run + 1) = λ q a b. elim (Bool-cases (q == i)) [
            | inl here ↦ ground arith
            | inr behind ↦ free q a (ground arith)
          ] in
          elim (Bool-cases (run + 1 == count)) [
            | inl enough ↦
                let c : run + 1 ≡ count = ground arith in
                let l : i + 1 - count ≡ lo = omega arith in
                rw (unused, enough, l)
                  (found lo (omega arith) (rw c at longer) (λ s a b. absurd (omega arith))
                    (ap (λ t. (t, taken p lo count)) (omega arith)))
            | inr more ↦
                rw (unused, more)
                  (alloc_loop-Outcome n (i + 1) (run + 1) count lo p (omega arith) small
                    (omega arith) (ground arith) longer)
          ]
    ]

-- A run is free throughout, or some page of it is used.
IsFree-or_IsBlocked : (count start : ℕ) (p : Pmm) → IsFree p start count ⊎ IsBlocked p start count
IsFree-or_IsBlocked zero start p = inl (λ q a b. absurd (omega arith))
IsFree-or_IsBlocked (suc n) start p = elim (Bool-cases (used_get p start)) [
  | inl used ↦ inr (start, omega arith, omega arith, used)
  | inr unused ↦ elim (IsFree-or_IsBlocked n (start + 1) p) [
    | inl rest ↦ inl λ q a b. elim (Bool-cases (start == q)) [
      | inl here ↦ ground arith
      | inr later ↦ rest q (ground arith) (omega arith)
    ]
    | inr (q, a, b, used) ↦ inr (q, omega arith, omega arith, used)
  ]
]

-- The run is taken: its pages are used and the counter is lower, and all else is as before.
pub record Took (p : Pmm) (start count : ℕ) (p' : Pmm) : Type 0 where
  pub used :
      (q : ℕ)
      → used_get p' q ≡ (if leb start q && ltb q (start + count) then true else used_get p q)
  pub counter : p'.free_pages ≡ p.free_pages - count
  pub resv_bitmap : p'.resv_bitmap ≡ p.resv_bitmap
  pub bitmap_words : p'.bitmap_words ≡ p.bitmap_words
  pub total_pages : p'.total_pages ≡ p.total_pages
  pub max_paddr : p'.max_paddr ≡ p.max_paddr

-- The lowest free run is returned and taken; or there is none, and 0 is returned.
pub data Allocated (p : Pmm) (count : ℕ) (r : ℕ × Pmm) : Type 0 where
  taken_at :
      (start : ℕ)
      → start + count ≤ p.total_pages
      → IsFree p start count
      → ((s : ℕ) → s < start → IsBlocked p s count)
      → r.0 ≡ start * page_size
      → Took p start count r.1
      → Allocated p count r
  none_left :
      r ≡ (0, p) → ((s : ℕ) → s + count ≤ p.total_pages → IsBlocked p s count) → Allocated p count r

taken-Took : (p : Pmm) (start count : ℕ) → Took p start count (taken p start count)
taken-Took p start count =
    let same = set_range-OnlyUsed count start p in
    record {
      used = set_range-get count start p;
      counter = ap (λ n. n - count) same.free_pages;
      resv_bitmap = same.resv_bitmap;
      bitmap_words = same.bitmap_words;
      total_pages = same.total_pages;
      max_paddr = same.max_paddr;
    }

Outcome-Allocated : (p : Pmm) (count : ℕ) (r : ℕ × Pmm) → Outcome p count 0 r → Allocated p count r
Outcome-Allocated p count r (found start fits free first e) =
    taken_at start fits free (λ s lt. first s (omega arith) lt) (ap (λ x. x.0) e)
      (coe 1 0 (k. Took p start count (e k).1) (taken-Took p start count))
Outcome-Allocated p count r (failed e none_fits) =
    none_left e (λ s fits. none_fits s (omega arith) fits)

module _ {p : Pmm} (v : IsValid p) (count : ℕ) where
  -- For a positive count `pmm_alloc_pages` returns the address of the lowest run of `count` free
  -- pages below the top, marks these pages used and takes them off the counter; if there is no
  -- such run it returns 0 and changes nothing.
  pub alloc-Outcome : 0 < count → Outcome p count 0 (pmm_alloc_pages p count)
  unfolding pmm_alloc_pages
  alloc-Outcome pos =
      let some_pages : (count == 0) ≡ false = ground arith in
      elim (Bool-cases (ltb p.free_pages count)) [
        | inl few ↦
            rw (some_pages, few)
              (failed refl λ s a b. elim (IsFree-or_IsBlocked count s p) [
                | inl free ↦
                    absurd (
                      ground
                        (arith, v.counted, set_range-free_below count s p.total_pages p b free))
                | inr blocked ↦ blocked
              ])
        | inr plenty ↦
            rw (some_pages, plenty)
              (alloc_loop-Outcome p.total_pages 0 0 count 0 p (omega arith)
                (omega (arith, v.tracked, v.small)) refl pos (λ q a b. absurd (omega arith)))
      ]

  -- For a positive count `pmm_alloc_pages` returns the address of the lowest run of `count` free
  -- pages below the top. Exactly these pages become used, the counter drops by `count`, and
  -- nothing else changes. If there is no such run it returns 0 and changes nothing.
  pub alloc-lowest_run : 0 < count → Allocated p count (pmm_alloc_pages p count)
  alloc-lowest_run pos = Outcome-Allocated p count _ (alloc-Outcome pos)

  taken-IsValid :
      (start : ℕ)
      → start + count ≤ p.total_pages
      → IsFree p start count
      → IsValid (taken p start count)
  unfolding free_below
  taken-IsValid start fits free = record {
    counted = rw same.total_pages (
        omega (
          arith,
          same.free_pages,
          v.counted,
          set_range-free_below count start p.total_pages p fits free,
        ));
    reserved = λ q lt h.
        let before : resv_get p q ≡ true = rw same.resv_bitmap at h in
        let below : q < p.total_pages = rw same.total_pages at lt in
        rw (set_range-get count start p q) (ground (arith, v.reserved q below before));
    tracked = same.max_paddr ∙ v.tracked ∙ ap (λ t. t * page_size) (sym same.total_pages);
    small = omega (arith, same.max_paddr, v.small);
  }
    where
      same : OnlyUsed p (set_range count start p)
      same = set_range-OnlyUsed count start p

  Outcome-IsValid : {r : ℕ × Pmm} → Outcome p count 0 r → IsValid r.1
  Outcome-IsValid (found start fits free first e) = rw e (taken-IsValid start fits free)
  Outcome-IsValid (failed e none_fits) = rw e v

  -- `pmm_alloc_pages` keeps the allocator valid, whatever the count.
  pub alloc-IsValid : IsValid (pmm_alloc_pages p count).1
  unfolding pmm_alloc_pages
  alloc-IsValid = elim (Bool-cases (count == 0)) [
    | inl none_asked ↦ rw none_asked v
    | inr asked ↦ Outcome-IsValid (alloc-Outcome (ground arith))
  ]

-- In a valid state in which page 0 is in use, for a positive count, `pmm_alloc_pages` returns 0
-- exactly if every run of that many pages has a used one.
pub alloc-zero_iff :
    {p : Pmm} (count : ℕ)
    → IsValid p
    → used_get p 0 ≡ true
    → 0 < count
    → ((pmm_alloc_pages p count).0 ≡ 0)
      ↔ ((s : ℕ) → s + count ≤ p.total_pages → IsBlocked p s count)
alloc-zero_iff {p} count v locked pos = by_outcome (alloc-Outcome v count pos)
  where
    by_outcome :
        {r : ℕ × Pmm}
        → Outcome p count 0 r
        → (r.0 ≡ 0) ↔ ((s : ℕ) → s + count ≤ p.total_pages → IsBlocked p s count)
    by_outcome (found start fits free first e) = (
      λ z. absurd (ground (arith, free 0)),
      λ all. let (q, a, b, used) = all start fits in absurd (ground (arith, free q)),
    )
    by_outcome (failed e none_fits) = (λ z s b. none_fits s (omega arith) b, λ all. ground arith)
