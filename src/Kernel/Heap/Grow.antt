-- ===== src/Kernel/Heap/Grow.antt =====
-- New pages at the end of the heap, and `exy_malloc` with them.
use exyde.Common.{
  ℕ, zero, suc, ◌+◌, ◌-◌, ◌*◌, ◌<◌, ◌≡◌, refl, ap, ◌∙◌, sym, Bool, true, false, not, List, [], ◌∷◌,
  ◌==◌, arith, length,
}
use exyde.Kernel.Chain.{null}
use exyde.Kernel.Pmm.{page_size}
use exyde.Kernel.Heap.{Heap, set_block, block_is_free, free_list_insert, add_pages}
use exyde.Kernel.Heap.Layout.{
  Tile, used, unused, first_to-append, Row, Row-congr, Row-append, IsHeap, join_last,
}
use exyde.Kernel.Heap.Release.{Releasing, free_list_insert-IsHeap}
use exyde.Kernel.Heap.Links.{free_list_insert-start}
use exyde.Kernel.Heap.Free.{Row-end}

-- The row with `k` new pages behind it.
abbrev pub with_pages : ℕ → List Tile → List Tile
with_pages zero ts = ts
with_pages (suc k) ts = join_last ts (unused (suc k * page_size - 32) ∷ [])

-- A result that is a heap with the row and the start, and that tells whether there are new pages.
abbrev pub Grown : ℕ → ℕ → List Tile → Bool × Heap → Type 0
Grown k p ts (done, h) = (done ≡ not (k == 0)) × (h.start ≡ p) × IsHeap h (with_pages k ts)

module _ (h : Heap) (ts : List Tile) (inv : IsHeap h ts) (k : ℕ) where
  extended : Heap
  extended =
      set_block (record h { end = h.end + suc k * page_size }) h.end
        (record { size = suc k * page_size - 32; next_free = null; flags = 0 })

  extended-Releasing : Releasing extended ts (suc k * page_size - 32) []
  unfolding extended block_is_free
  extended-Releasing =
      let end = Row-end h.blocks null h.start h.end ts inv.layout in
      let one : (h.end == h.end) ≡ true = ground arith in
      let here : extended.blocks h.end
          ≡ record { size = suc k * page_size - 32; next_free = null; flags = 0 } =
        rw one refl in
      let row =
        Row-congr h.blocks extended.blocks null h.start h.end ts
          (λ a le lt. let off : (h.end == a) ≡ false = ground arith in rw off refl) inv.layout in
      let new : Row extended.blocks null h.end (h.end + suc k * page_size)
          (used (suc k * page_size - 32) ∷ []) =
        (ap (λ c. c.size) here, ap block_is_free here, (λ z. cc), omega arith) in
      record {
        layout =
            Row-append extended.blocks null h.start (h.end + suc k * page_size) ts
              (used (suc k * page_size - 32) ∷ [])
              (coe 1 0 (i. Row extended.blocks null h.start (end i) ts) row)
              (coe 1 0
                (i.
                  Row extended.blocks null (end i) (h.end + suc k * page_size)
                    (used (suc k * page_size - 32) ∷ []))
                new);
        head =
            inv.head ∙ sym (first_to-append null h.start ts (used (suc k * page_size - 32) ∷ []));
        counted = omega (arith, inv.counted);
        positive = inv.positive;
      }

-- The new block is put behind the row, and joined with its last block if that is free.
pub add_pages-Grown :
    (h : Heap) (ts : List Tile)
    → IsHeap h ts
    → (fuel mapped : ℕ) → length ts < fuel
    → Grown mapped h.start ts (add_pages fuel mapped h)
unfolding extended
add_pages-Grown h ts inv fuel zero lt = (refl, refl, inv)
add_pages-Grown h ts inv fuel (suc k) lt =
    let end = Row-end h.blocks null h.start h.end ts inv.layout in
    let off : (suc k == 0) ≡ false = ground arith in
    let done =
      free_list_insert-IsHeap (extended h ts inv k) ts (suc k * page_size - 32) []
        (extended-Releasing h ts inv k) fuel lt in
    rw off (
      refl,
      free_list_insert-start fuel h.end (extended h ts inv k),
      coe 0 1
          (i. IsHeap (free_list_insert fuel (end i) (extended h ts inv k)) (with_pages (suc k) ts))
          done,
    )
