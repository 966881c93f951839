-- ===== src/User/Sort.antt =====
-- `bsearch` of src/userspace/libc/stdlib.c; User.Sort.Quick has `qsort`. What `compar` returns for the key and the element at an
-- address is an argument; an array is given by its address and the size of an element.
pub mod Search
pub mod Quick
mod Tests
use exyde.Common.{
  ℕ, zero, suc, ◌+◌, ◌-◌, ◌*◌, ◌/◌, ◌==◌, if◌then◌else◌, ◌||◌, not, Option, some, none, Bool, true,
  false, ltb, ℤ, pos, negsuc,
}

-- The tests `c == 0` and `c < 0`.
abbrev pub is_zero : ℤ → Bool
is_zero (pos n) = n == 0
is_zero (negsuc n) = false

abbrev pub is_neg : ℤ → Bool
is_neg (pos n) = false
is_neg (negsuc n) = true

-- The loop of `bsearch`; the outer none is the end of its fuel.
unfoldable pub bsearch_loop : ℕ → (ℕ → ℤ) → ℕ → ℕ → ℕ → Option (Option ℕ)
bsearch_loop zero compar size lo hi = none
bsearch_loop (suc fuel) compar size lo hi =
    let n = (hi - lo) / size in
    let mid = lo + n / 2 * size in
    let c = compar mid in
    let lo' = if is_neg c then lo else mid + size in
    let hi' = if is_neg c then mid else hi in
    let rest = bsearch_loop fuel compar size lo' hi' in
    if not (ltb lo hi) then some none else if is_zero c then some (some mid) else rest

unfoldable pub bsearch : (ℕ → ℤ) → ℕ → ℕ → ℕ → Option (Option ℕ)
bsearch compar base nmemb size =
    if (size == 0) || (nmemb == 0)
    then some none
    else bsearch_loop (suc nmemb) compar size base (base + nmemb * size)
