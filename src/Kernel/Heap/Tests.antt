-- ===== src/Kernel/Heap/Tests.antt =====
-- A heap of four blocks, and the theorems of heap.c at it.
use exyde.Common.{ℕ, ◌≡◌, ◌≢◌, refl, true, some, arith, update, List, [], ◌∷◌}
use exyde.Kernel.Chain.{null}
use exyde.Kernel.Heap.{
  Heap, block_is_free, exy_malloc, exy_free, fit_loop, alloc_from_list, round_up, heap_free_bytes,
  sum_loop,
}
use exyde.Kernel.Heap.Layout.{Tile, used, unused, IsHeap, first_fit}
use exyde.Kernel.Heap.Alloc.{alloc-Allocated, Allocated}
use exyde.Kernel.Heap.Free.{free-HeapAgain, HeapAgain}
use exyde.Kernel.Heap.Malloc.{
  malloc-FirstFit, malloc_nonnull, Mapped, Served, or_pages, payload_for,
}

-- Used, free, used, free.
abbrev row : List Tile
row = used 16 ∷ unused 32 ∷ used 48 ∷ unused 64 ∷ []

abbrev four : Heap
four = record {
  blocks =
      update
        (update
          (update
            (update (λ _. record { size = 0; next_free = 0; flags = 0 }) 0x40100000
              (record { size = 16; next_free = 0; flags = 0 }))
            0x40100030 (record { size = 32; next_free = 0x401000c0; flags = 1 }))
          0x40100070 (record { size = 48; next_free = 0; flags = 0 }))
        0x401000c0 (record { size = 64; next_free = 0; flags = 1 });
  contents = λ _. 0;
  start = 0x40100000;
  end = 0x40100120;
  free_head = 0x40100030;
  live_payload = 64;
}

four-IsHeap : IsHeap four row
unfolding block_is_free
four-IsHeap = record {
  layout = (
    refl,
    refl,
    (λ z. cc),
    (refl, refl, (λ z. refl), (refl, refl, (λ z. cc), (refl, refl, (λ z. refl), refl))),
  );
  head = refl;
  counted = refl;
  positive = omega arith;
}

-- The first block that fits is the second free one.
second_fits : (alloc_from_list 5 48 four).0 ≡ 0x401000e0
unfolding fit_loop
second_fits = refl

rounds_up : round_up 17 ≡ 32
unfolding round_up
rounds_up = refl

sums_free : heap_free_bytes 5 four ≡ 96
unfolding sum_loop
sums_free = refl

alloc-Allocated_example :
    Allocated row four
      (alloc_from_list 5 48 four)
      (some (0x401000c0, used 16 ∷ unused 32 ∷ used 48 ∷ used 64 ∷ []))
alloc-Allocated_example = alloc-Allocated 5 48 row four four-IsHeap (omega arith)

free-HeapAgain_example : HeapAgain (exy_free 5 0x40100090 four) (used 16 ∷ unused 208 ∷ [])
free-HeapAgain_example =
    free-HeapAgain four (used 16 ∷ unused 32 ∷ []) 48 (unused 64 ∷ []) four-IsHeap (omega arith) 5
      (omega arith)

malloc-FirstFit_example :
    (k : ℕ) × Mapped (λ _. true) four.end 1 k
    × Served
        (exy_malloc 6 (λ _. true) 100 four)
        (or_pages k 112 four.start row (first_fit 112 four.start row))
malloc-FirstFit_example =
    malloc-FirstFit 6 (λ _. true) 100 four row four-IsHeap (omega arith) (omega arith) (omega arith)

-- 100 bytes do not fit in the row and get 112 of a new page, 16 bytes get 16 and 17 bytes 32.
payloads : (payload_for 100 ≡ 112) × (payload_for 16 ≡ 16) × (payload_for 17 ≡ 32)
payloads = (refl, refl, refl)

malloc_nonnull_example : (exy_malloc 6 (λ _. true) 100 four).0 ≢ null
unfolding round_up
malloc_nonnull_example =
    malloc_nonnull 6 (λ _. true) 100 four row four-IsHeap (omega arith) (ground arith) (omega arith)
      (λ j lt. refl) (ground arith)
