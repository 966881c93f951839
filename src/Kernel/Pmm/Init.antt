-- ===== src/Kernel/Pmm/Init.antt =====
-- `pmm_init`: which pages are free once the memory map has been read.
use exyde.Common.{
  ℕ, ◌+◌, ◌-◌, ◌*◌, ◌/◌, ◌%◌, ◌^◌, ◌≤◌, ◌<◌, ◌≡◌, ◌≢◌, ◌↔◌, refl, ap, ◌∙◌, sym, Bool, true, false,
  not, ◌⊎◌, zero, suc, ◌==◌, ltb, Bool-cases, inl, inr, ◌||◌, arith, some, none, fill_lem,
}
use exyde.Kernel.Memmap.{Memmap, memory_usable}
use exyde.Kernel.Pmm.{
  Pmm, page_size, used_get, resv_get, get_bit, usable_pass, top_loop, usable_top, count_loop,
  pmm_init, pmm_max_tracked_bytes, tracked_top, words_for, cleared, marked,
}
use exyde.Kernel.Pmm.Bitmap.{page_down_lem, get-ones, get-zeros}
use exyde.Kernel.Pmm.Range.{free_below, count_loop-free_below}
use exyde.Kernel.Pmm.Alloc.{IsValid}
use exyde.Kernel.Pmm.Pass.{
  AllSmall, any_inside, any_touches, usable_pass-SameSizes, reserved_pass-SameSizes,
  usable_pass-get, reserved_pass-get,
}

usable_top_bounds : (m : Memmap) → (usable_top m % page_size ≡ 0) × (usable_top m < 2 ^ 64)
unfolding usable_top
usable_top_bounds m =
    ground (arith, page_down_lem ((top_loop m.region_count 0 m 0 + page_size - 1) % 2 ^ 64))

-- `pmm_init` panics exactly when no usable memory was reported: its second check never fires.
pub init-none_iff : (m : Memmap) (p : Pmm) → (pmm_init m p ≡ none) ↔ (usable_top m ≡ 0)
unfolding pmm_init
init-none_iff m p = ground arith

-- The words that `pmm_init` fills hold every tracked page.
cleared-get :
    (top : ℕ) (p : Pmm) (q : ℕ)
    → top % page_size ≡ 0
    → q * page_size < top
    → (used_get (cleared top p) q ≡ true) × (resv_get (cleared top p) q ≡ false)
unfolding cleared
cleared-get top p q al below =
    let word : ℕ = words_for (top / page_size) in
    (
      get-ones _ q (fill_lem word 0 (2 ^ 64 - 1) p.used_bitmap (q / 64) ∙ ground arith),
      get-zeros _ q (fill_lem word 0 0 p.resv_bitmap (q / 64) ∙ ground arith),
    )

cleared-sizes :
    (top : ℕ) (p : Pmm)
    → ((cleared top p).max_paddr ≡ top) × ((cleared top p).total_pages ≡ top / page_size)
unfolding cleared
cleared-sizes top p = (refl, refl)

-- What `pmm_init` leaves of a page: it is free exactly when a usable region holds it whole and no
-- other region touches it, and reserved exactly when such a region touches it.
pub record Read (m : Memmap) (p : Pmm) (q : ℕ) : Type 0 where
  pub used :
      used_get p q ≡ (not (any_inside m.region_count 0 m q) || any_touches m.region_count 0 m q)
  pub reserved : resv_get p q ≡ any_touches m.region_count 0 m q

-- The region is usable, and its end.
abbrev pub is_usable : Memmap → ℕ → Bool
is_usable m i = (m.regions i).type == memory_usable

abbrev pub end_of : Memmap → ℕ → ℕ
end_of m i = (m.regions i).base + (m.regions i).size

-- The top is the least multiple of the page size that no usable region passes, or 1 GiB if that is
-- less.
pub record IsTop (m : Memmap) (top : ℕ) : Type 0 where
  pub whole : top % 4096 ≡ 0
  pub low : top ≤ 0x40000000
  pub covers :
      (i : ℕ) → i < m.region_count → is_usable m i ≡ true → (end_of m i ≤ top) ⊎ (top ≡ 0x40000000)
  pub reached : (i : ℕ) × (i < m.region_count) × (is_usable m i ≡ true) × (top < end_of m i + 4096)

-- The scan keeps the highest end of the usable regions that it has met.
record Highest (n i : ℕ) (m : Memmap) (top r : ℕ) : Type 0 where
  at_least : top ≤ r
  covers : (j : ℕ) → i ≤ j → j < i + n → is_usable m j ≡ true → end_of m j ≤ r
  reached :
      (r ≡ top) ⊎ ((j : ℕ) × (i ≤ j) × (j < i + n) × (is_usable m j ≡ true) × (end_of m j ≡ r))

Highest-next :
    (n i : ℕ) (m : Memmap) (top top' r : ℕ)
    → top ≤ top'
    → (is_usable m i ≡ true → end_of m i ≤ top')
    → (top' ≡ top) ⊎ ((is_usable m i ≡ true) × (end_of m i ≡ top'))
    → Highest n (i + 1) m top' r
    → Highest (suc n) i m top r
Highest-next n i m top top' r le here from h = record {
  at_least = omega (arith, h.at_least);
  covers = λ j lo hi u. elim (Bool-cases (i == j)) [
    | inl same ↦
        let e : i ≡ j = ground arith in
        let b = here (coe 1 0 (k. is_usable m (e k) ≡ true) u) in
        coe 0 1 (k. end_of m (e k) ≤ r) (omega (arith, b, h.at_least))
    | inr later ↦ h.covers j (ground arith) (omega arith) u
  ];
  reached = elim h.reached [
    | inr (j, lo, hi, u, e) ↦ inr (j, omega arith, omega arith, u, e)
    | inl e ↦ elim from [
      | inl same ↦ inl (e ∙ same)
      | inr (u, at) ↦ inr (i, omega arith, omega arith, u, at ∙ sym e)
    ]
  ];
}

top_loop-Highest :
    (n i : ℕ) (m : Memmap) (top : ℕ)
    → AllSmall m
    → i + n ≤ m.region_count
    → Highest n i m top (top_loop n i m top)
unfolding top_loop
top_loop-Highest zero i m top small fits = record {
  at_least = omega arith;
  covers = λ j lo hi u. absurd (omega arith);
  reached = inl refl;
}
top_loop-Highest (suc n) i m top small fits =
    let exact : end_of m i % 2 ^ 64 ≡ end_of m i = omega (arith, small i (omega arith)) in
    let rest = λ (t : ℕ). top_loop-Highest n (i + 1) m t small (omega arith) in
    rw exact (elim (Bool-cases (is_usable m i)) [
      | inr other ↦
          rw other
            (Highest-next n i m top top _ (omega arith) (λ u. ground arith) (inl refl) (rest top))
      | inl usable ↦ elim (Bool-cases (ltb top (end_of m i))) [
        | inl higher ↦
            rw (usable, higher)
              (Highest-next n i m top (end_of m i) _ (ground arith) (λ u. omega arith)
                (inr (usable, refl)) (rest (end_of m i)))
        | inr lower ↦
            rw (usable, lower)
              (Highest-next n i m top top _ (omega arith) (λ u. ground arith) (inl refl) (rest top))
      ]
    ])

-- The top that is tracked, where some usable region does not end at 0.
tracked_top-IsTop :
    (m : Memmap) (i : ℕ)
    → AllSmall m
    → i < m.region_count
    → is_usable m i ≡ true
    → 0 < end_of m i
    → IsTop m (tracked_top m) × (usable_top m ≢ 0)
unfolding usable_top
tracked_top-IsTop m i small lt u pos =
    let t : ℕ = top_loop m.region_count 0 m 0 in
    let h = top_loop-Highest m.region_count 0 m 0 small (omega arith) in
    let above = h.covers i (omega arith) (omega arith) u in
    elim h.reached [
      | inl z ↦ absurd (omega arith)
      | inr (j, lo, hi, u', e) ↦
          let hi' : j < m.region_count = omega arith in
          let bound = small j hi' in
          let some_top : (t == 0) ≡ false = ground arith in
          let exact : (t + page_size - 1) % 2 ^ 64 ≡ t + page_size - 1 = omega arith in
          let down = page_down_lem (t + page_size - 1) (omega arith) in
          rw (some_top, exact, down)
            (elim (Bool-cases (ltb pmm_max_tracked_bytes ((t + page_size - 1) / 4096 * 4096))) [
              | inl cut ↦ rw cut (
                record {
                  whole = refl;
                  low = omega arith;
                  covers = λ k b v. inr refl;
                  reached = (j, hi', u', ground arith);
                },
                λ z. omega arith,
              )
              | inr all ↦ rw all (
                record {
                  whole = omega arith;
                  low = ground arith;
                  covers =
                      λ k b v. inl (omega (arith, h.covers k (omega arith) (omega (arith, b)) v));
                  reached = (j, hi', u', omega arith);
                },
                λ z. omega arith,
              )
            ])
    ]

module _ (m : Memmap) (p : Pmm) where
  marked-sizes :
      ((marked m p).max_paddr ≡ tracked_top m)
      × ((marked m p).total_pages ≡ tracked_top m / page_size)
  marked-sizes =
      let c = cleared (tracked_top m) p in
      ground (
        arith,
        cleared-sizes (tracked_top m) p,
        usable_pass-SameSizes m.region_count 0 m c,
        reserved_pass-SameSizes m.region_count 0 m (usable_pass m.region_count 0 m c),
      )

  tracked_top_bounds : (tracked_top m % page_size ≡ 0) × (tracked_top m ≤ pmm_max_tracked_bytes)
  tracked_top_bounds = ground (arith, usable_top_bounds m)

  marked-Read : AllSmall m → (q : ℕ) → q * page_size < tracked_top m → Read m (marked m p) q
  marked-Read small q below =
      let c = cleared (tracked_top m) p in
      let u = usable_pass m.region_count 0 m c in
      let (al, low) = tracked_top_bounds in
      let (c_used, c_resv) = cleared-get (tracked_top m) p q al below in
      let (c_top, c_total) = cleared-sizes (tracked_top m) p in
      let (u_sizes, u_resv) = usable_pass-SameSizes m.region_count 0 m c in
      let u_top : u.max_paddr ≡ tracked_top m = u_sizes.max_paddr ∙ c_top in
      let u_used =
        usable_pass-get m small q m.region_count 0 c (omega arith) (rw c_top al)
          (rw c_top (omega arith)) (rw c_top below) in
      let (used, resv) =
        reserved_pass-get m small q m.region_count 0 u (omega arith) (rw u_top al)
          (rw u_top (omega arith)) (rw u_top below) in
      let u_resv_get : resv_get u q ≡ resv_get c q = ap (λ b. get_bit b q) u_resv in
      record { used = ground arith; reserved = ground arith }

  -- If some usable region does not end at address 0 and no region ends at 2 ^ 62 or above,
  -- `pmm_init` succeeds in a valid state. The top of memory is the least multiple of the page size
  -- that no usable region passes, or 1 GiB if that is less; a page below it is free exactly if a
  -- usable region holds it whole and no other region touches it, and reserved exactly if one does.
  pub init-Read :
      AllSmall m
      → (i : ℕ) → i < m.region_count
      → is_usable m i ≡ true
      → 0 < end_of m i
      → (p' : Pmm) × (pmm_init m p ≡ some p')
        × IsValid p'
        × IsTop m p'.max_paddr
        × ((q : ℕ) → q * page_size < p'.max_paddr → Read m p' q)
  unfolding pmm_init free_below
  init-Read small i i_lt usable pos =
      let (is_top, ne) = tracked_top-IsTop m i small i_lt usable pos in
      let n : ℕ = tracked_top m / page_size in
      let (al, low) = tracked_top_bounds in
      let (top, total) = marked-sizes in
      let below : (q : ℕ) → q < (marked m p).total_pages → q * page_size < tracked_top m =
        λ q lt. omega arith in
      (
        record (marked m p) { free_pages = count_loop n 0 (marked m p) 0 },
        ground arith,
        record {
          counted =
              count_loop-free_below n (marked m p)
              ∙ ap (λ t. free_below t (marked m p)) (sym total);
          reserved = λ q lt h. ground (arith, marked-Read small q (below q lt));
          tracked = omega arith;
          small = omega arith;
        },
        coe 1 0 (k. IsTop m (top k)) is_top,
        λ q lt.
            let r = marked-Read small q (omega (arith, top, lt)) in
            record { used = r.used; reserved = r.reserved },
      )
