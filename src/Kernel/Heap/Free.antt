-- ===== src/Kernel/Heap/Free.antt =====
-- The release of an allocation.
use exyde.Common.{
  ℕ, ◌+◌, ◌-◌, ◌<◌, ◌≡◌, false, ◌||◌, Option, some, none, List, [], ◌∷◌, ◌++◌, leb, ltb, ◌==◌,
  arith, length,
}
use exyde.Kernel.Chain.{Ptr, null}
use exyde.Kernel.Heap.{Block, Heap, exy_free}
use exyde.Kernel.Heap.Layout.{
  Tile, used, unused, Row, Row-split, row_end, row_end-ge, live-append, IsHeap, join_next,
  join_last,
}
use exyde.Kernel.Heap.Release.{Releasing, free_list_insert-IsHeap}

-- Where a row ends.
pub Row-end :
    (b : Ptr → Block) (x : Ptr) (p e : ℕ) (ts : List Tile) → Row b x p e ts → row_end p ts ≡ e
Row-end b x p e [] row = row
Row-end b x p e (used n ∷ ts) (_, _, _, row) = Row-end b x (p + 32 + n) e ts row
Row-end b x p e (unused n ∷ ts) (_, _, _, row) = Row-end b x (p + 32 + n) e ts row

-- A result that is a heap with the row.
abbrev pub HeapAgain : Option Heap → List Tile → Type 0
HeapAgain none ts = ⊥
HeapAgain (some h) ts = IsHeap h ts

-- The release of the used block behind `pre`, which is not empty, with fuel for the blocks before it:
-- it is no panic, and the block becomes a free one, joined with the free block behind it and the one
-- before it.
pub free-HeapAgain :
    (h : Heap) (pre : List Tile) (n : ℕ) (post : List Tile)
    → IsHeap h (pre ++ (used n ∷ post))
    → 0 < n
    → (fuel : ℕ) → length pre < fuel
    → HeapAgain (exy_free fuel (row_end h.start pre + 32) h) (join_last pre (join_next n post))
unfolding exy_free
free-HeapAgain h pre n post inv pos fuel lt =
    let p = row_end h.start pre in
    let (before, (size, free, _, behind)) =
      Row-split h.blocks null h.start h.end pre (used n ∷ post) inv.layout in
    let ge = row_end-ge h.start pre in
    let ge' = row_end-ge (p + 32 + n) post in
    let end = Row-end h.blocks null (p + 32 + n) h.end post behind in
    let at : p + 32 - 32 ≡ p = omega arith in
    let there : (p + 32 == null) ≡ false = ground arith in
    let inside : (ltb (p + 32) h.start || leb h.end (p + 32)) ≡ false =
      ground (arith, ge, ge', end, pos) in
    let releasing : Releasing (record h { live_payload = h.live_payload - (h.blocks p).size }) pre n
        post =
      record {
        layout = inv.layout;
        head = inv.head;
        counted = omega (arith, inv.counted, live-append pre (used n ∷ post), size);
        positive = inv.positive;
      } in
    rw (at, there, inside, free)
      (free_list_insert-IsHeap (record h { live_payload = h.live_payload - (h.blocks p).size }) pre
        n post releasing fuel lt)
