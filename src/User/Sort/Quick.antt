-- ===== src/User/Sort/Quick.antt =====
-- `qsort` of src/userspace/libc/stdlib.c over the memory. `compar` is an argument, which reads the
-- memory at the two addresses. A result is none where a loop runs out of fuel.
use exyde.Common.{
  ℕ, zero, suc, ◌+◌, ◌-◌, ◌*◌, ◌/◌, ◌==◌, if◌then◌else◌, ◌||◌, ◌&&◌, not, Option, some, none, Bool,
  leb, ltb, ℤ, List, [], ◌∷◌, length, update,
}
use exyde.User.String.{Mem}
use exyde.User.Sort.{is_zero, is_neg}

-- `c <= 0` and `c >= 0`.
abbrev at_most_zero : ℤ → Bool
at_most_zero c = is_neg c || is_zero c

abbrev at_least_zero : ℤ → Bool
at_least_zero c = not (is_neg c)

unfoldable pub swap_bytes : Mem → ℕ → ℕ → ℕ → Mem
swap_bytes mem a b zero = mem
swap_bytes mem a b (suc size) =
    let t = mem a in swap_bytes (update (update mem a (mem b)) b t) (suc a) (suc b) size

abbrev pub and_then_in : {A B : Type 0} → Option A → (A → Option B) → Option B
and_then_in none f = none
and_then_in (some x) f = f x

module _ (compar : Mem → ℕ → ℕ → ℤ) (size : ℕ) where
  -- `for (j = i; j > l; j -= size)`
  unfoldable pub sift_loop : ℕ → Mem → ℕ → ℕ → Option Mem
  sift_loop zero mem l j = none
  sift_loop (suc fuel) mem l j =
      let rest = sift_loop fuel (swap_bytes mem (j - size) j size) l (j - size) in
      if not (ltb l j)
      then some mem
      else if at_most_zero (compar mem (j - size) j)
      then some mem
      else rest

  -- `for (i = l + size; i <= h; i += size)` from `i` on.
  unfoldable pub insertion_loop : ℕ → ℕ → ℕ → ℕ → ℕ → Mem → Option Mem
  insertion_loop fuel zero l i h mem = none
  insertion_loop fuel (suc k) l i h mem =
      let rest = and_then_in (sift_loop fuel mem l i) (insertion_loop fuel k l (i + size) h) in
      if leb i h then rest else some mem

  -- `while (i < j && compar(i, pivot) <= 0) i += size;`
  unfoldable pub up_loop : ℕ → Mem → ℕ → ℕ → ℕ → Option ℕ
  up_loop zero mem pivot i j = none
  up_loop (suc fuel) mem pivot i j =
      let rest = up_loop fuel mem pivot (i + size) j in
      if ltb i j && at_most_zero (compar mem i pivot) then rest else some i

  -- `while (j > i && compar(j, pivot) >= 0) j -= size;`
  unfoldable pub down_loop : ℕ → Mem → ℕ → ℕ → ℕ → Option ℕ
  down_loop zero mem pivot i j = none
  down_loop (suc fuel) mem pivot i j =
      let rest = down_loop fuel mem pivot i (j - size) in
      if ltb i j && at_least_zero (compar mem j pivot) then rest else some j

  -- The loop that partitions: the last `i`, and the memory.
  unfoldable pub partition_loop : ℕ → ℕ → ℕ → ℕ → ℕ → ℕ → Mem → Option (ℕ × Mem)
  partition_loop fuel zero l pivot i j mem = none
  partition_loop fuel (suc k) l pivot i j mem = and_then_in (up_loop fuel mem pivot i j) (λ i'.
      and_then_in (down_loop fuel mem pivot i' j) (λ j'.
        let rest =
          partition_loop fuel k l pivot (i' + size) (if ltb l j' then j' - size else j')
            (swap_bytes mem i' j' size) in
        if leb j' i' then some (i', mem) else rest))

  -- `if (compar(a, b) > 0) swap_bytes(a, b, size);`
  abbrev pub order_pair : ℕ → ℕ → Mem → Mem
  order_pair a b mem = if at_most_zero (compar mem a b) then mem else swap_bytes mem a b size

  abbrev pub median_swaps : ℕ → ℕ → ℕ → Mem → Mem
  median_swaps l mid h mem =
      swap_bytes (order_pair mid h (order_pair l h (order_pair l mid mem))) mid (h - size) size

  abbrev pub push_ranges : ℕ → ℕ → ℕ → List (ℕ × ℕ) → List (ℕ × ℕ)
  push_ranges l i h stack =
      let stack₁ = if ltb l i then (l, i - size) ∷ stack else stack in
      if ltb i h then (i + size, h) ∷ stack₁ else stack₁

  -- One range: the memory and the stack behind it.
  abbrev pub after_partition : ℕ → ℕ → ℕ → List (ℕ × ℕ) → ℕ × Mem → Option (List (ℕ × ℕ) × Mem)
  after_partition fuel l h stack (i, mem) =
      let mem' = swap_bytes mem i (h - size) size in
      if ltb 64 (length stack + 2)
      then and_then_in (insertion_loop fuel fuel l (l + size) h mem') (λ m. some (stack, m))
      else some (push_ranges l i h stack, mem')

  unfoldable pub sort_range : ℕ → ℕ → ℕ → List (ℕ × ℕ) → Mem → Option (List (ℕ × ℕ) × Mem)
  sort_range fuel l h stack mem =
      let mid = l + (h - l) / size / 2 * size in
      if ltb ((h - l) / size) 8
      then and_then_in (insertion_loop fuel fuel l (l + size) h mem) (λ m. some (stack, m))
      else and_then_in
          (partition_loop fuel fuel l (h - size) l (h - size) (median_swaps l mid h mem))
          (after_partition fuel l h stack)

  -- `while (sp > 0)`
  unfoldable pub stack_loop : ℕ → ℕ → List (ℕ × ℕ) → Mem → Option Mem
  stack_loop fuel zero stack mem = none
  stack_loop fuel (suc k) [] mem = some mem
  stack_loop fuel (suc k) ((l, h) ∷ stack) mem =
      and_then_in (sort_range fuel l h stack mem) (λ r. stack_loop fuel k r.0 r.1)

  unfoldable pub qsort : ℕ → ℕ → ℕ → Mem → Option Mem
  qsort fuel base nmemb mem =
      if ltb nmemb 2 || (size == 0)
      then some mem
      else stack_loop fuel fuel ((base, base + (nmemb - 1) * size) ∷ []) mem
