-- ===== src/Kernel/Heap/Malloc.antt =====
-- `exy_malloc` as a whole: the first fit of the row, or of the row with new pages.
use exyde.Common.{
  ℕ, zero, suc, ◌+◌, ◌-◌, ◌*◌, ◌/◌, ◌%◌, ◌<◌, ◌≤◌, ◌^◌, ◌≡◌, ◌≢◌, refl, ◌∙◌, Bool, true, false,
  Option, some, none, List, [], ◌∷◌, leb, ltb, ◌==◌, arith, length, Bool-cases, inl, inr, ◌⊎◌,
  bit_and, if◌then◌else◌,
}
use exyde.Common.Bits.{bit_and-align}
use exyde.Kernel.Chain.{Ptr, null}
use exyde.Kernel.Pmm.{page_size}
use exyde.Kernel.Heap.{
  Heap, exy_malloc, heap_grow, map_loop, kernel_heap_max, need_of, round_up, or_grow,
  grow_and_alloc, alloc_from_list,
}
use exyde.Kernel.Heap.Layout.{
  Tile, used, unused, after, first_fit, put_front, fits, IsHeap, join_last,
}
use exyde.Kernel.Heap.Alloc.{alloc-Allocated, Allocated}
use exyde.Kernel.Heap.Grow.{with_pages, Grown, add_pages-Grown}

-- The pages that a growth for `need` bytes asks for.
abbrev pub pages_for : ℕ → ℕ
pages_for need = (need + 32 + 4095) / page_size

-- An allocation from the row, or from the row with `k` new pages: the block, if any, and the row.
abbrev pub found : List Tile → Option (Ptr × List Tile) → Option Ptr × List Tile
found ts none = (none, ts)
found ts (some (a, us)) = (some a, us)

abbrev pub or_pages : ℕ → ℕ → ℕ → List Tile → Option (Ptr × List Tile) → Option Ptr × List Tile
or_pages k need p ts none = found (with_pages k ts) (first_fit need p (with_pages k ts))
or_pages k need p ts (some (a, us)) = (some a, us)

-- The address of a block's payload, and a result that is a heap with the row.
abbrev pub payload : Option Ptr → Ptr
payload none = null
payload (some a) = a + 32

abbrev pub Served : Ptr × Heap → Option Ptr × List Tile → Type 0
Served (addr, h) (o, ts) = (addr ≡ payload o) × IsHeap h ts

Allocated-Served :
    (ts : List Tile) (h : Heap) (r : Ptr × Heap) (f : Option (Ptr × List Tile))
    → IsHeap h ts
    → Allocated ts h r f
    → Served r (found ts f)
Allocated-Served ts h (addr, h') none inv (at, same) = (at, coe 1 0 (i. IsHeap (same i) ts) inv)
Allocated-Served ts h (addr, h') (some (a, us)) inv fit = fit

-- The rows are not much longer with the new pages.
length-join_last : (ts : List Tile) (s : ℕ) → length (join_last ts (unused s ∷ [])) ≤ length ts + 1
length-join_last [] s = omega arith
length-join_last (used n ∷ []) s = omega arith
length-join_last (unused n ∷ []) s = omega arith
length-join_last (used n ∷ u ∷ ts) s = omega (arith, length-join_last (u ∷ ts) s)
length-join_last (unused n ∷ u ∷ ts) s = omega (arith, length-join_last (u ∷ ts) s)

length-with_pages : (k : ℕ) (ts : List Tile) → length (with_pages k ts) ≤ length ts + 1
length-with_pages zero ts = omega arith
length-with_pages (suc k) ts = length-join_last ts (suc k * page_size - 32)

module _ (fuel need : ℕ) (ts : List Tile) (lt : length ts + 1 < fuel) where
  grow_and_alloc-Served :
      (p k : ℕ) (r : Bool × Heap)
      → first_fit need p ts ≡ none
      → Grown k p ts r
      → Served
          (grow_and_alloc fuel need r)
          (found (with_pages k ts) (first_fit need p (with_pages k ts)))
  grow_and_alloc-Served p zero (false, h) none_fits (_, _, inv) = rw none_fits (refl, inv)
  grow_and_alloc-Served p zero (true, h) none_fits (bad, _, _) = cc
  grow_and_alloc-Served p (suc k) (false, h) none_fits (bad, _, _) = ground arith
  grow_and_alloc-Served p (suc k) (true, h) none_fits (_, start, inv) =
      let us = with_pages (suc k) ts in
      coe 0 1 (i. Served (alloc_from_list fuel need h) (found us (first_fit need (start i) us))) (
        Allocated-Served us h (alloc_from_list fuel need h) (first_fit need h.start us) inv
          (alloc-Allocated fuel need us h inv (omega (arith, length-with_pages (suc k) ts))))

  or_grow-Served :
      (map_page : ℕ → Bool) (k : ℕ) (h : Heap) (r : Ptr × Heap) (f : Option (Ptr × List Tile))
      → first_fit need h.start ts ≡ f
      → Allocated ts h r f
      → Grown k h.start ts (heap_grow fuel map_page need h)
      → Served (or_grow fuel map_page need r) (or_pages k need h.start ts f)
  or_grow-Served map_page k h (addr, h') none none_fits (at, same) grown =
      let off : (addr == null) ≡ true = ground (arith, at) in
      rw off (
        coe 1 0
          (i.
            Served (grow_and_alloc fuel need (heap_grow fuel map_page need (same i)))
              (or_pages k need h.start ts none))
          (grow_and_alloc-Served h.start k (heap_grow fuel map_page need h) none_fits grown))
  or_grow-Served map_page k h (addr, h') (some (a, us)) one_fits (at, inv) grown =
      let on : (addr == null) ≡ false = ground (arith, at) in rw on (at, inv)

-- The growth asks for the pages that hold the payload and its header.
heap_grow-Grown :
    (fuel : ℕ) (map_page : ℕ → Bool) (need : ℕ) (h : Heap) (ts : List Tile)
    → IsHeap h ts
    → length ts < fuel
    → need + 4127 < 2 ^ 64
    → Grown (map_loop map_page h.end 0 (pages_for need)) h.start ts (heap_grow fuel map_page need h)
unfolding heap_grow
heap_grow-Grown fuel map_page need h ts inv lt small =
    let bytes : ((need + 32) % 2 ^ 64 + page_size - 1) % 2 ^ 64 / page_size ≡ pages_for need =
      omega arith in
    let some_page : (pages_for need == 0) ≡ false = ground arith in
    rw (bytes, some_page)
      (add_pages-Grown h ts inv fuel (map_loop map_page h.end 0 (pages_for need)) lt)

malloc-Served :
    (fuel : ℕ) (map_page : ℕ → Bool) (size : ℕ) (h : Heap) (ts : List Tile)
    → IsHeap h ts
    → 0 < size
    → need_of size + 4127 < 2 ^ 64
    → length ts + 1 < fuel
    → Served (exy_malloc fuel map_page size h) (
        or_pages
          (map_loop map_page h.end 0 (pages_for (need_of size)))
          (need_of size)
          h.start
          ts
          (first_fit (need_of size) h.start ts))
unfolding exy_malloc
malloc-Served fuel map_page size h ts inv pos small lt =
    let need = need_of size in
    let off : (size == 0) ≡ false = ground arith in
    rw off (
      or_grow-Served fuel need ts lt map_page (map_loop map_page h.end 0 (pages_for need)) h
        (alloc_from_list fuel need h) (first_fit need h.start ts) refl
        (alloc-Allocated fuel need ts h inv (omega arith))
        (heap_grow-Grown fuel map_page need h ts inv (omega arith) small))

-- The payload that `size` bytes get: a multiple of 16 that holds them, and at least 16.
abbrev pub payload_for : ℕ → ℕ
payload_for size = if leb size 16 then 16 else (size + 15) / 16 * 16

need_of-payload_for : (size : ℕ) → 0 < size → size + 15 < 2 ^ 64 → need_of size ≡ payload_for size
unfolding round_up
need_of-payload_for size pos small =
    let exact : (size + 16 - 1) % 2 ^ 64 ≡ size + 15 = omega arith in
    let aligned : bit_and (size + 15) (2 ^ 64 - 16) ≡ (size + 15) / 16 * 16 =
      bit_and-align 4 60 (size + 15) (omega arith) in
    rw (exact, aligned) (ground arith)

-- Of the `pages` pages from `base` on, `k` are mapped: those before the first that cannot be, or
-- that is not below the end of the heap's addresses.
pub record Mapped (map_page : ℕ → Bool) (base pages k : ℕ) : Type 0 where
  pub at_most : k ≤ pages
  pub good :
      (j : ℕ) → j < k → (map_page (base + j * 4096) ≡ true) × (base + (j + 1) * 4096 ≤ 0x50000000)
  pub stop : k < pages → (map_page (base + k * 4096) ≡ false) ⊎ (0x50000000 < base + (k + 1) * 4096)

-- The same from the page `i` on, where those before it are mapped.
map_loop-Mapped :
    (map_page : ℕ → Bool) (base i k pages : ℕ)
    → i + k ≡ pages
    → ((j : ℕ) → j < i → (map_page (base + j * 4096) ≡ true) × (base + (j + 1) * 4096 ≤ 0x50000000))
    → Mapped map_page base pages (map_loop map_page base i k)
unfolding map_loop
map_loop-Mapped map_page base i zero pages e before = record {
  at_most = omega arith;
  good = before;
  stop = λ lt. absurd (omega arith);
}
map_loop-Mapped map_page base i (suc k) pages e before =
    elim (Bool-cases (ltb kernel_heap_max (base + i * page_size + page_size))) [
      | inl beyond ↦
          rw beyond
            (record { at_most = omega arith; good = before; stop = λ lt. inr (ground arith) })
      | inr below ↦ elim (Bool-cases (map_page (base + i * page_size))) [
        | inr bad ↦
            rw (below, bad) (record { at_most = omega arith; good = before; stop = λ lt. inl bad })
        | inl one ↦
            rw (below, one)
              (map_loop-Mapped map_page base (suc i) k pages (omega arith) (λ j lt.
                elim (Bool-cases (j == i)) [
                  | inl here ↦
                      let at : i ≡ j = ground arith in
                      coe 0 1
                        (l.
                          (map_page (base + at l * 4096) ≡ true)
                          × (base + (at l + 1) * 4096 ≤ 0x50000000))
                        (one, ground arith)
                  | inr other ↦ before j (ground arith)
                ]))
      ]
    ]

-- An allocation of `size > 0` bytes from a well-formed heap, with fuel for its blocks and one more and
-- a size that no sum wraps around: the payload is the least multiple of 16 that holds the size. It
-- takes the first fit of the row for that payload, or else the first fit of the row with new pages
-- behind it, or else it returns NULL; the heap is well formed in each case. The new pages are, of the
-- fewest that hold the payload and a header, those before the first that is not mapped or is not
-- below 0x50000000.
pub malloc-FirstFit :
    (fuel : ℕ) (map_page : ℕ → Bool) (size : ℕ) (h : Heap) (ts : List Tile)
    → IsHeap h ts
    → 0 < size
    → size + 4142 < 2 ^ 64
    → length ts + 1 < fuel
    → let need = payload_for size in
      (k : ℕ) × Mapped map_page h.end (pages_for need) k
      × Served
          (exy_malloc fuel map_page size h)
          (or_pages k need h.start ts (first_fit need h.start ts))
malloc-FirstFit fuel map_page size h ts inv pos small lt =
    let e = need_of-payload_for size pos (omega arith) in
    let fits : need_of size + 4127 < 2 ^ 64 = rw e (ground arith) in
    (
      map_loop map_page h.end 0 (pages_for (payload_for size)),
      map_loop-Mapped map_page h.end 0 (pages_for (payload_for size)) (pages_for (payload_for size))
          (omega arith) (λ j below. absurd (omega arith)),
      coe 0 1
          (i. Served (exy_malloc fuel map_page size h) (
            or_pages (map_loop map_page h.end 0 (pages_for (e i))) (e i) h.start ts
              (first_fit (e i) h.start ts)))
          (malloc-Served fuel map_page size h ts inv pos fits lt),
    )

-- With the pages it asks for, the row has a block that fits.
abbrev is_found : Option (Ptr × List Tile) → Bool
is_found none = false
is_found (some r) = true

is_found-put_front :
    (t : Tile) (f : Option (Ptr × List Tile)) → is_found (put_front t f) ≡ is_found f
is_found-put_front t none = refl
is_found-put_front t (some r) = refl

is_found-behind :
    (need p : ℕ) (t : Tile) (ts : List Tile)
    → is_found (first_fit need (after p t) ts) ≡ true
    → is_found (first_fit need p (t ∷ ts)) ≡ true
is_found-behind need p t ts e = elim (Bool-cases (fits need t)) [
  | inl z ↦ rw z refl
  | inr z ↦ rw z (is_found-put_front t (first_fit need (after p t) ts) ∙ e)
]

is_found-join_last :
    (need p s : ℕ) (ts : List Tile)
    → need ≤ s
    → is_found (first_fit need p (join_last ts (unused s ∷ []))) ≡ true
is_found-join_last need p s [] le = let e : leb need s ≡ true = ground arith in rw e refl
is_found-join_last need p s (used n ∷ []) le =
    is_found-behind need p (used n) (unused s ∷ []) (is_found-join_last need (p + 32 + n) s [] le)
is_found-join_last need p s (unused n ∷ []) le =
    let e : leb need (n + (32 + s)) ≡ true = ground arith in rw e refl
is_found-join_last need p s (used n ∷ u ∷ ts) le =
    is_found-behind need p (used n) (join_last (u ∷ ts) (unused s ∷ []))
      (is_found-join_last need (p + 32 + n) s (u ∷ ts) le)
is_found-join_last need p s (unused n ∷ u ∷ ts) le =
    is_found-behind need p (unused n) (join_last (u ∷ ts) (unused s ∷ []))
      (is_found-join_last need (p + 32 + n) s (u ∷ ts) le)

-- All pages from `base + i * page_size` on can be mapped.
map_loop-all :
    (map_page : ℕ → Bool) (base i k : ℕ)
    → ((j : ℕ) → i ≤ j → j < i + k → map_page (base + j * page_size) ≡ true)
    → base + (i + k) * page_size ≤ kernel_heap_max
    → map_loop map_page base i k ≡ i + k
unfolding map_loop
map_loop-all map_page base i zero all low = omega arith
map_loop-all map_page base i (suc k) all low =
    let in_bounds : ltb kernel_heap_max (base + i * page_size + page_size) ≡ false = ground arith in
    let one = all i (omega arith) (omega arith) in
    rw (in_bounds, one)
      (map_loop-all map_page base (suc i) k (λ j le lt. all j (omega arith) (omega arith))
          (omega arith)
        ∙ omega arith)

Served-nonnull :
    (need p k : ℕ) (ts : List Tile) (f : Option (Ptr × List Tile)) (r : Ptr × Heap)
    → 0 < k
    → need + 32 ≤ k * page_size
    → Served r (or_pages k need p ts f)
    → r.0 ≢ null
Served-nonnull need p k ts (some (a, us)) (addr, h) pos room (at, _) z = omega (arith, at, z)
Served-nonnull need p zero ts none (addr, h) pos room served z = omega arith
Served-nonnull need p (suc k) ts none (addr, h) pos room served z =
    found_nonnull (with_pages (suc k) ts) (first_fit need p (with_pages (suc k) ts))
      (is_found-join_last need p (suc k * page_size - 32) ts (omega arith)) served z
  where
    found_nonnull :
        (us : List Tile) (f : Option (Ptr × List Tile))
        → is_found f ≡ true
        → Served (addr, h) (found us f)
        → addr ≢ null
    found_nonnull us none e s z = cc
    found_nonnull us (some (a, ts')) e (at, _) z = omega (arith, at, z)

-- An allocation of `size > 0` bytes from a well-formed heap, with fuel for its blocks and one more and
-- no wrap-around of the size, is not NULL where the pages that a growth asks for lie below the end of
-- the heap's addresses and can all be mapped.
pub malloc_nonnull :
    (fuel : ℕ) (map_page : ℕ → Bool) (size : ℕ) (h : Heap) (ts : List Tile)
    → IsHeap h ts
    → 0 < size
    → need_of size + 4127 < 2 ^ 64
    → length ts + 1 < fuel
    → ((j : ℕ) → j < pages_for (need_of size) → map_page (h.end + j * page_size) ≡ true)
    → h.end + pages_for (need_of size) * page_size ≤ kernel_heap_max
    → (exy_malloc fuel map_page size h).0 ≢ null
malloc_nonnull fuel map_page size h ts inv pos small lt all low =
    let need = need_of size in
    let mapped =
      map_loop-all map_page h.end 0 (pages_for need) (λ j le below. all j (omega arith))
        (omega arith) in
    Served-nonnull need h.start (map_loop map_page h.end 0 (pages_for need)) ts
      (first_fit need h.start ts) (exy_malloc fuel map_page size h) (omega (arith, mapped))
      (omega (arith, mapped)) (malloc-Served fuel map_page size h ts inv pos small lt)
