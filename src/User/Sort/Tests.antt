-- ===== src/User/Sort/Tests.antt =====
-- The array 3, 5, 9 of one-byte elements at 100 and the key 5, and arrays of bytes to sort.
use exyde.Common.{
  none, List, [], ◌∷◌, update, bytes, suc, ℕ, ◌≡◌, refl, Option, some, arith, ℤ, diff,
  if◌then◌else◌, ◌==◌,
}
use exyde.User.String.{Mem}
use exyde.User.Sort.Quick.{
  qsort, stack_loop, sort_range, insertion_loop, sift_loop, up_loop, down_loop, partition_loop,
  swap_bytes,
}
use exyde.User.Sort.{bsearch, bsearch_loop}
use exyde.User.Sort.Search.{IsSorted, Found, bsearch-Found}

abbrev compar : ℕ → ℤ
compar p = diff 5 (if p == 100 then 3 else if p == 101 then 5 else 9)

compar-IsSorted : IsSorted compar 100 1 3
compar-IsSorted = record {
  greater = λ i j le lt h. ground arith;
  smaller = λ i j le lt h h'. (ground arith, ground arith);
}

finds_it : bsearch compar 100 3 1 ≡ some (some 101)
unfolding bsearch bsearch_loop
finds_it = refl

bsearch-Found_example : (r : Option ℕ) × (bsearch compar 100 3 1 ≡ some r) × Found compar 100 1 3 r
bsearch-Found_example = bsearch-Found compar 100 1 3 (omega arith) compar-IsSorted

abbrev put : Mem → ℕ → List ℕ → Mem
put mem i [] = mem
put mem i (x ∷ xs) = put (update mem i x) (suc i) xs

abbrev shown : ℕ → Option Mem → List ℕ
shown n none = []
shown n (some mem) = bytes mem 0 n

abbrev sorted_bytes : List ℕ → ℕ → List ℕ
sorted_bytes xs n = shown n (qsort (λ mem a b. diff (mem a) (mem b)) 1 20 0 n (put (λ i. 0) 0 xs))

sorts_four : sorted_bytes (4 ∷ 2 ∷ 3 ∷ 1 ∷ []) 4 ≡ 1 ∷ 2 ∷ 3 ∷ 4 ∷ []
unfolding qsort stack_loop sort_range insertion_loop sift_loop swap_bytes
sorts_four = refl

-- From nine elements on the result may be out of order: here 5 is behind 6 and 7.
misplaces_five :
    sorted_bytes (1 ∷ 2 ∷ 3 ∷ 4 ∷ 7 ∷ 5 ∷ 6 ∷ 8 ∷ 9 ∷ []) 9 ≡ 1 ∷ 2 ∷ 3 ∷ 4 ∷ 6 ∷ 7 ∷ 5 ∷ 8 ∷ 9 ∷ []
unfolding qsort stack_loop sort_range insertion_loop sift_loop swap_bytes up_loop down_loop
    partition_loop
misplaces_five = refl
