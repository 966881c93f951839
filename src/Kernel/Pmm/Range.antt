-- ===== src/Kernel/Pmm/Range.antt =====
-- What the loops of pmm.c over a range of pages do to each page, and to the number of free pages.
use exyde.Common.{
  ℕ, zero, suc, ◌+◌, ◌*◌, ◌/◌, ◌%◌, ◌^◌, ◌≤◌, ◌<◌, ◌≡◌, refl, ap, ◌∙◌, Bool, true, false, not, ◌&&◌,
  arith, ◌==◌, leb, ltb, if◌then◌else◌, Bool-cases, inl, inr, total, total-update, total-congr,
  total-add-one, total-le, update,
}
use exyde.Kernel.Pmm.{
  Pmm, page_size, used_get, used_set, used_clear, resv_get, resv_set, usable_loop, reserved_loop,
  set_range, clear_range, count_loop, may_free,
}
use exyde.Kernel.Pmm.Bitmap.{get-set, get-clear}

-- `p'` differs from `p` in the used bitmap alone.
pub record OnlyUsed (p p' : Pmm) : Type 0 where
  pub resv_bitmap : p'.resv_bitmap ≡ p.resv_bitmap
  pub bitmap_words : p'.bitmap_words ≡ p.bitmap_words
  pub total_pages : p'.total_pages ≡ p.total_pages
  pub free_pages : p'.free_pages ≡ p.free_pages
  pub max_paddr : p'.max_paddr ≡ p.max_paddr

-- The page lies in the range of addresses.
abbrev pub within : ℕ → ℕ → ℕ → Bool
within a end q = leb a (q * page_size) && ltb (q * page_size) end

-- The page is one of `n` from `start` on.
abbrev pub among : ℕ → ℕ → ℕ → Bool
among start n q = leb start q && ltb q (start + n)

pub usable_loop-get :
    (n a end : ℕ) (p : Pmm) (q : ℕ)
    → a % page_size ≡ 0
    → end < 2 ^ 63
    → end ≤ a + n * page_size
    → used_get (usable_loop n a end p) q ≡ (if within a end q then false else used_get p q)
unfolding usable_loop
usable_loop-get zero a end p q al small fuel = ground arith
usable_loop-get (suc n) a end p q al small fuel = elim (Bool-cases (ltb a end)) [
  | inl more ↦
      let next : (a + page_size) % 2 ^ 64 ≡ a + page_size = ground arith in
      rw (more, next)
        (usable_loop-get n (a + page_size) end (used_clear p (a / page_size)) q (omega arith) small
            (omega arith)
          ∙ ground (arith, get-clear p.used_bitmap (a / page_size) q))
  | inr done ↦ rw done (ground arith)
]

pub set_range-get :
    (n start : ℕ) (p : Pmm) (q : ℕ)
    → used_get (set_range n start p) q ≡ (if among start n q then true else used_get p q)
unfolding set_range
set_range-get zero start p q = ground arith
set_range-get (suc n) start p q =
    ground (arith, set_range-get n (start + 1) (used_set p start) q, get-set p.used_bitmap start q)

pub clear_range-get :
    (n start : ℕ) (p : Pmm) (q : ℕ)
    → used_get (clear_range n start p) q ≡ (if among start n q then false else used_get p q)
unfolding clear_range
clear_range-get zero start p q = ground arith
clear_range-get (suc n) start p q =
    ground
      (arith, clear_range-get n (start + 1) (used_clear p start) q, get-clear p.used_bitmap start q)

pub set_range-OnlyUsed : (n start : ℕ) (p : Pmm) → OnlyUsed p (set_range n start p)
unfolding set_range
set_range-OnlyUsed zero start p = ground arith
set_range-OnlyUsed (suc n) start p =
    ground (arith, set_range-OnlyUsed n (start + 1) (used_set p start))

pub clear_range-OnlyUsed : (n start : ℕ) (p : Pmm) → OnlyUsed p (clear_range n start p)
unfolding clear_range
clear_range-OnlyUsed zero start p = ground arith
clear_range-OnlyUsed (suc n) start p =
    ground (arith, clear_range-OnlyUsed n (start + 1) (used_clear p start))

-- The number of free pages below `n`.
abbrev free : Bool → ℕ
free used = if used then 0 else 1

unfoldable pub free_below : ℕ → Pmm → ℕ
free_below n p = total free n (used_get p)

pub free_below-le : (n : ℕ) (p : Pmm) → free_below n p ≤ n
unfolding free_below
free_below-le n p = total-le free n (used_get p) (λ v. ground arith)

count_loop-total :
    (n i j : ℕ) (p : Pmm) (found : ℕ)
    → i + n ≡ j
    → count_loop n i p found + total free i (used_get p) ≡ found + total free j (used_get p)
unfolding count_loop
count_loop-total zero i j p found e = ap (λ t. found + total free t (used_get p)) (omega arith)
count_loop-total (suc n) i j p found e = ground (
  arith,
  total-add-one free i (used_get p),
  count_loop-total n (i + 1) j p (if not (used_get p i) then found + 1 else found) (omega arith),
)

pub count_loop-free_below : (n : ℕ) (p : Pmm) → count_loop n 0 p 0 ≡ free_below n p
unfolding free_below total
count_loop-free_below n p = omega (arith, count_loop-total n 0 n p 0 (omega arith))

pub reserved_loop-get :
    (n a end : ℕ) (p : Pmm) (q : ℕ)
    → a % page_size ≡ 0
    → end < 2 ^ 63
    → end ≤ a + n * page_size
    → (used_get (reserved_loop n a end p) q ≡ (if within a end q then true else used_get p q))
      × (resv_get (reserved_loop n a end p) q ≡ (if within a end q then true else resv_get p q))
unfolding reserved_loop
reserved_loop-get zero a end p q al small fuel = ground arith
reserved_loop-get (suc n) a end p q al small fuel = elim (Bool-cases (ltb a end)) [
  | inl more ↦
      let page : ℕ = a / page_size in
      let next : (a + page_size) % 2 ^ 64 ≡ a + page_size = ground arith in
      let (used, resv) =
        reserved_loop-get n (a + page_size) end (resv_set (used_set p page) page) q (omega arith)
          small (omega arith) in
      rw (more, next)
        (
          used ∙ ground (arith, get-set p.used_bitmap page q),
          resv ∙ ground (arith, get-set p.resv_bitmap page q),
        )
  | inr done ↦ rw done (ground arith)
]

pub usable_loop-OnlyUsed : (n a end : ℕ) (p : Pmm) → OnlyUsed p (usable_loop n a end p)
unfolding usable_loop
usable_loop-OnlyUsed zero a end p = ground arith
usable_loop-OnlyUsed (suc n) a end p =
    ground
      (arith, usable_loop-OnlyUsed n ((a + page_size) % 2 ^ 64) end (used_clear p (a / page_size)))

pub reserved_loop-max_paddr :
    (n a end : ℕ) (p : Pmm)
    → ((reserved_loop n a end p).max_paddr ≡ p.max_paddr)
      × ((reserved_loop n a end p).total_pages ≡ p.total_pages)
unfolding reserved_loop
reserved_loop-max_paddr zero a end p = ground arith
reserved_loop-max_paddr (suc n) a end p = ground (
  arith,
  reserved_loop-max_paddr n ((a + page_size) % 2 ^ 64) end
      (resv_set (used_set p (a / page_size)) (a / page_size)),
)

-- The validation loop accepts exactly the ranges whose pages are all used and none reserved.
pub may_free-true :
    (n start : ℕ) (p : Pmm) (q : ℕ)
    → may_free n start p ≡ true
    → start ≤ q
    → q < start + n
    → (used_get p q ≡ true) × (resv_get p q ≡ false)
unfolding may_free
may_free-true zero start p q h lo hi = absurd (omega arith)
may_free-true (suc n) start p q h lo hi = elim (Bool-cases (start == q)) [
  | inl here ↦ ground arith
  | inr later ↦ ground (arith, may_free-true n (start + 1) p q)
]

pub may_free_of :
    (n start : ℕ) (p : Pmm)
    → ((q : ℕ) → start ≤ q → q < start + n → (used_get p q ≡ true) × (resv_get p q ≡ false))
    → may_free n start p ≡ true
unfolding may_free
may_free_of zero start p all = refl
may_free_of (suc n) start p all =
    ground
      (arith, all start, may_free_of n (start + 1) p (λ q lo hi. all q (omega arith) (omega arith)))

pub used_set-free_below :
    (n : ℕ) (p : Pmm) (page : ℕ)
    → page < n
    → used_get p page ≡ false
    → free_below n (used_set p page) + 1 ≡ free_below n p
unfolding free_below
used_set-free_below n p page h e = omega (
  arith,
  ap free e,
  total-update free n (used_get p) page true h,
  total-congr free n (used_get (used_set p page)) (update (used_get p) page true)
      (λ i lt. ap free (get-set p.used_bitmap page i)),
)

pub used_clear-free_below :
    (n : ℕ) (p : Pmm) (page : ℕ)
    → page < n
    → used_get p page ≡ true
    → free_below n (used_clear p page) ≡ free_below n p + 1
unfolding free_below
used_clear-free_below n p page h e = omega (
  arith,
  ap free e,
  total-update free n (used_get p) page false h,
  total-congr free n (used_get (used_clear p page)) (update (used_get p) page false)
      (λ i lt. ap free (get-clear p.used_bitmap page i)),
)

pub set_range-free_below :
    (n start m : ℕ) (p : Pmm)
    → start + n ≤ m
    → ((q : ℕ) → start ≤ q → q < start + n → used_get p q ≡ false)
    → free_below m (set_range n start p) + n ≡ free_below m p
unfolding set_range
set_range-free_below zero start m p h all = omega arith
set_range-free_below (suc n) start m p h all = omega (
  arith,
  used_set-free_below m p start (omega arith) (all start (omega arith) (omega arith)),
  set_range-free_below n (start + 1) m (used_set p start) (omega arith)
      (λ q lo hi. ground (arith, all q, get-set p.used_bitmap start q)),
)

pub clear_range-free_below :
    (n start m : ℕ) (p : Pmm)
    → start + n ≤ m
    → ((q : ℕ) → start ≤ q → q < start + n → used_get p q ≡ true)
    → free_below m (clear_range n start p) ≡ free_below m p + n
unfolding clear_range
clear_range-free_below zero start m p h all = omega arith
clear_range-free_below (suc n) start m p h all = omega (
  arith,
  used_clear-free_below m p start (omega arith) (all start (omega arith) (omega arith)),
  clear_range-free_below n (start + 1) m (used_clear p start) (omega arith)
      (λ q lo hi. ground (arith, all q, get-clear p.used_bitmap start q)),
)

-- No page below `n` is free.
pub free_below-zero :
    (n : ℕ) (p : Pmm) → ((q : ℕ) → q < n → used_get p q ≡ true) → free_below n p ≡ 0
unfolding free_below total
free_below-zero zero p used = refl
free_below-zero (suc n) p used =
    let rest = free_below-zero n p (λ q lt. used q (omega arith)) in
    rw (used n (omega arith)) (omega (arith, rest))
