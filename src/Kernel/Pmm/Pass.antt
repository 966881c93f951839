-- ===== src/Kernel/Pmm/Pass.antt =====
-- The two passes of `pmm_init` over the memory map: what they do to one page.
use exyde.Common.{
  ℕ, zero, suc, ◌+◌, ◌-◌, ◌*◌, ◌/◌, ◌%◌, ◌^◌, ◌≤◌, ◌<◌, ◌≡◌, refl, Bool, true, false, not, ◌&&◌,
  ◌||◌, arith, ◌==◌, leb, ltb, if◌then◌else◌, Bool-cases, inl, inr,
}
use exyde.Kernel.Memmap.{Memmap, MemoryRegion, memory_usable}
use exyde.Kernel.Pmm.{
  Pmm, page_size, page_down, used_get, resv_get, mark_usable, mark_reserved, usable_pass,
  reserved_pass,
}
use exyde.Kernel.Pmm.Bitmap.{page_down_lem}
use exyde.Kernel.Pmm.Range.{
  usable_loop-get, usable_loop-OnlyUsed, reserved_loop-get, reserved_loop-max_paddr,
}

-- The page lies whole inside the region; some byte of the page lies in the region.
abbrev pub inside : MemoryRegion → ℕ → Bool
inside r q = leb r.base (q * page_size) && leb ((q + 1) * page_size) (r.base + r.size)

abbrev pub touches : MemoryRegion → ℕ → Bool
touches r q = ltb r.base ((q + 1) * page_size) && ltb (q * page_size) (r.base + r.size)

-- No sum that the code forms from the region wraps.
abbrev pub IsSmall : MemoryRegion → Type 0
IsSmall r = r.base + r.size < 2 ^ 62

module _ (r : MemoryRegion) (small : IsSmall r) (p : Pmm) (q : ℕ) where
  mark_usable-get :
      p.max_paddr % page_size ≡ 0
      → p.max_paddr < 2 ^ 62
      → q * page_size < p.max_paddr
      → used_get (mark_usable r.base r.size p) q ≡ (if inside r q then false else used_get p q)
  unfolding mark_usable
  mark_usable-get al low below =
      let start : ℕ = page_down ((r.base + page_size - 1) % 2 ^ 64) in
      let top : ℕ = page_down ((r.base + r.size) % 2 ^ 64) in
      let end : ℕ = if ltb p.max_paddr top then p.max_paddr else top in
      ground (
        arith,
        page_down_lem ((r.base + page_size - 1) % 2 ^ 64),
        page_down_lem ((r.base + r.size) % 2 ^ 64),
        usable_loop-get (end / page_size) start end p q,
      )

  mark_reserved-get :
      p.max_paddr % page_size ≡ 0
      → p.max_paddr < 2 ^ 62
      → q * page_size < p.max_paddr
      → (used_get (mark_reserved r.base r.size p) q ≡ (if touches r q then true else used_get p q))
        × (resv_get (mark_reserved r.base r.size p) q
            ≡ (if touches r q then true else resv_get p q))
  unfolding mark_reserved
  mark_reserved-get al low below =
      let start : ℕ = page_down r.base in
      let top : ℕ = page_down ((r.base + r.size + page_size - 1) % 2 ^ 64) in
      let end : ℕ = if ltb p.max_paddr top then p.max_paddr else top in
      ground (
        arith,
        page_down_lem r.base,
        page_down_lem ((r.base + r.size + page_size - 1) % 2 ^ 64),
        reserved_loop-get (end / page_size) start end p q,
      )

-- Some usable region holds the whole page; some other region touches it.
unfoldable pub any_inside : ℕ → ℕ → Memmap → ℕ → Bool
any_inside zero i m q = false
any_inside (suc n) i m q =
    ((m.regions i).type == memory_usable && inside (m.regions i) q) || any_inside n (i + 1) m q

unfoldable pub any_touches : ℕ → ℕ → Memmap → ℕ → Bool
any_touches zero i m q = false
any_touches (suc n) i m q =
    (not ((m.regions i).type == memory_usable) && touches (m.regions i) q)
    || any_touches n (i + 1) m q

-- A pass leaves the sizes alone.
pub record SameSizes (p p' : Pmm) : Type 0 where
  pub max_paddr : p'.max_paddr ≡ p.max_paddr
  pub total_pages : p'.total_pages ≡ p.total_pages

mark_usable-SameSizes :
    (base size : ℕ) (p : Pmm)
    → SameSizes p (mark_usable base size p)
      × ((mark_usable base size p).resv_bitmap ≡ p.resv_bitmap)
unfolding mark_usable
mark_usable-SameSizes base size p =
    let start : ℕ = page_down ((base + page_size - 1) % 2 ^ 64) in
    let top : ℕ = page_down ((base + size) % 2 ^ 64) in
    let end : ℕ = if ltb p.max_paddr top then p.max_paddr else top in
    ground (arith, usable_loop-OnlyUsed (end / page_size) start end p)

mark_reserved-SameSizes : (base size : ℕ) (p : Pmm) → SameSizes p (mark_reserved base size p)
unfolding mark_reserved
mark_reserved-SameSizes base size p =
    let start : ℕ = page_down base in
    let top : ℕ = page_down ((base + size + page_size - 1) % 2 ^ 64) in
    let end : ℕ = if ltb p.max_paddr top then p.max_paddr else top in
    ground (arith, reserved_loop-max_paddr (end / page_size) start end p)

pub usable_pass-SameSizes :
    (n i : ℕ) (m : Memmap) (p : Pmm)
    → SameSizes p (usable_pass n i m p) × ((usable_pass n i m p).resv_bitmap ≡ p.resv_bitmap)
unfolding usable_pass
usable_pass-SameSizes zero i m p = ground arith
usable_pass-SameSizes (suc n) i m p =
    let r = m.regions i in
    let p' = if r.type == memory_usable then mark_usable r.base r.size p else p in
    ground (arith, mark_usable-SameSizes r.base r.size p, usable_pass-SameSizes n (i + 1) m p')

pub reserved_pass-SameSizes : (n i : ℕ) (m : Memmap) (p : Pmm) → SameSizes p (reserved_pass n i m p)
unfolding reserved_pass
reserved_pass-SameSizes zero i m p = ground arith
reserved_pass-SameSizes (suc n) i m p =
    let r = m.regions i in
    let p' = if not (r.type == memory_usable) then mark_reserved r.base r.size p else p in
    ground (arith, mark_reserved-SameSizes r.base r.size p, reserved_pass-SameSizes n (i + 1) m p')

-- All regions of the map are small.
abbrev pub AllSmall : Memmap → Type 0
AllSmall m = (i : ℕ) → i < m.region_count → IsSmall (m.regions i)

module _ (m : Memmap) (small : AllSmall m) (q : ℕ) where
  pub usable_pass-get :
      (n i : ℕ) (p : Pmm)
      → i + n ≤ m.region_count
      → p.max_paddr % page_size ≡ 0
      → p.max_paddr < 2 ^ 62
      → q * page_size < p.max_paddr
      → used_get (usable_pass n i m p) q ≡ (if any_inside n i m q then false else used_get p q)
  unfolding usable_pass any_inside
  usable_pass-get zero i p fits al low below = refl
  usable_pass-get (suc n) i p fits al low below =
      let r = m.regions i in
      elim (Bool-cases (r.type == memory_usable)) [
        | inl usable ↦
            let p' = mark_usable r.base r.size p in
            rw usable (
              ground (
                arith,
                mark_usable-SameSizes r.base r.size p,
                mark_usable-get r (small i (omega arith)) p q al low below,
                usable_pass-get n (i + 1) p',
              ))
        | inr other ↦ ground (arith, usable_pass-get n (i + 1) p)
      ]

  pub reserved_pass-get :
      (n i : ℕ) (p : Pmm)
      → i + n ≤ m.region_count
      → p.max_paddr % page_size ≡ 0
      → p.max_paddr < 2 ^ 62
      → q * page_size < p.max_paddr
      → (used_get (reserved_pass n i m p) q ≡ (if any_touches n i m q then true else used_get p q))
        × (resv_get (reserved_pass n i m p) q
            ≡ (if any_touches n i m q then true else resv_get p q))
  unfolding reserved_pass any_touches
  reserved_pass-get zero i p fits al low below = (refl, refl)
  reserved_pass-get (suc n) i p fits al low below =
      let r = m.regions i in
      elim (Bool-cases (r.type == memory_usable)) [
        | inl usable ↦ ground (arith, reserved_pass-get n (i + 1) p)
        | inr other ↦
            let p' = mark_reserved r.base r.size p in
            rw other (
              ground (
                arith,
                mark_reserved-SameSizes r.base r.size p,
                mark_reserved-get r (small i (omega arith)) p q al low below,
                reserved_pass-get n (i + 1) p',
              ))
      ]
