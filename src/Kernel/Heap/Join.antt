-- ===== src/Kernel/Heap/Join.antt =====
-- The joining of two free blocks that meet, and of a block with the one behind it, in a release.
use exyde.Common.{
  ℕ, ◌+◌, ◌≡◌, refl, ap, ap₂, ◌∙◌, sym, true, false, not, ◌&&◌, List, [], ◌∷◌, ◌++◌, ◌==◌, arith,
  inl, inr,
}
use exyde.Kernel.Chain.{Ptr, null}
use exyde.Kernel.Heap.{Heap, block_is_free, heap_header, set_block, merge_next, block_end}
use exyde.Kernel.Heap.Layout.{
  Tile, used, unused, first_to, first_to-cases, first_to-append, Row, Row-congr, Row-append,
  Row-split, row_end, first_free, Layout, live-append, IsHeap, join_next,
}

-- The block at `p` with the one at `q` added to it.
abbrev pub joined : Ptr → Ptr → Heap → Heap
joined p q h = set_block h p (record (h.blocks p) {
  size = (h.blocks p).size + (heap_header + (h.blocks q).size);
  next_free = (h.blocks q).next_free;
})

-- Two free blocks that meet.
module _ (h : Heap) (pre : List Tile) (k m : ℕ) (us : List Tile) where
  merged : Heap
  merged = joined (row_end h.start pre) (row_end h.start pre + 32 + k) h

  merged-block : merged.blocks (row_end h.start pre) ≡ record (h.blocks (row_end h.start pre)) {
    size =
        (h.blocks (row_end h.start pre)).size
        + (32 + (h.blocks (row_end h.start pre + 32 + k)).size);
    next_free = (h.blocks (row_end h.start pre + 32 + k)).next_free;
  }
  unfolding merged
  merged-block =
      let one : (row_end h.start pre == row_end h.start pre) ≡ true = ground arith in rw one refl

  merged-other : (a : Ptr) → (row_end h.start pre == a) ≡ false → merged.blocks a ≡ h.blocks a
  unfolding merged
  merged-other a off = rw off refl

  merged-row :
      Layout h.blocks h.start h.end (pre ++ (unused k ∷ unused m ∷ us))
      → Layout merged.blocks h.start h.end (pre ++ (unused (k + (32 + m)) ∷ us))
  unfolding block_is_free
  merged-row l =
      let p = row_end h.start pre in
      let (to_p, (size, free, link, (size', free', link', behind))) =
        Row-split h.blocks null h.start h.end pre (unused k ∷ unused m ∷ us) l in
      let e : p + 32 + k + 32 + m ≡ p + 32 + (k + (32 + m)) = omega arith in
      Row-append merged.blocks null h.start h.end pre (unused (k + (32 + m)) ∷ us)
        (Row-congr h.blocks merged.blocks p h.start p pre (λ a le lt. merged-other a (ground arith))
          to_p)
        (
          ap (λ c. c.size) merged-block ∙ ap₂ (λ x y. x + (32 + y)) size size',
          ap block_is_free merged-block ∙ free,
          (λ z. ap (λ c. c.next_free) merged-block ∙ link' refl ∙ ap (λ q. first_to null q us) e),
          Row-congr h.blocks merged.blocks null (p + 32 + (k + (32 + m))) h.end us
              (λ a le lt. merged-other a (ground arith))
              (coe 0 1 (i. Row h.blocks null (e i) h.end us) behind),
        )

  pub joined-IsHeap :
      IsHeap h (pre ++ (unused k ∷ unused m ∷ us))
      → IsHeap
          (joined (row_end h.start pre) (row_end h.start pre + 32 + k) h)
          (pre ++ (unused (k + (32 + m)) ∷ us))
  unfolding merged
  joined-IsHeap inv = record {
    layout = merged-row inv.layout;
    head =
        inv.head
        ∙ first_to-append null h.start pre (unused k ∷ unused m ∷ us)
        ∙ sym (first_to-append null h.start pre (unused (k + (32 + m)) ∷ us));
    counted =
        inv.counted
        ∙ live-append pre (unused k ∷ unused m ∷ us)
        ∙ omega arith
        ∙ sym (live-append pre (unused (k + (32 + m)) ∷ us));
    positive = inv.positive;
  }

-- A free block and its neighbour behind it.
pub merge_next-IsHeap :
    (h : Heap) (pre : List Tile) (n : ℕ) (post : List Tile)
    → IsHeap h (pre ++ (unused n ∷ post))
    → IsHeap
        (merge_next (row_end h.start pre) (first_free (row_end h.start pre + 32 + n) post) h)
        (pre ++ join_next n post)
merge_next-IsHeap h pre n [] inv = inv
merge_next-IsHeap h pre n (used m ∷ us) inv =
    let p = row_end h.start pre in
    let (_, (size, _, _, _)) =
      Row-split h.blocks null h.start h.end pre (unused n ∷ used m ∷ us) inv.layout in
    let q = first_free (p + 32 + n + 32 + m) us in
    let off : (not (q == null) && (block_end h p == q)) ≡ false =
      elim (first_to-cases null (p + 32 + n + 32 + m) us) [
        | inl e ↦ ground (arith, e)
        | inr (le, _) ↦ ground (arith, le, size)
      ] in
    rw off inv
merge_next-IsHeap h pre n (unused m ∷ us) inv =
    let p = row_end h.start pre in
    let (_, (size, _, _, _)) =
      Row-split h.blocks null h.start h.end pre (unused n ∷ unused m ∷ us) inv.layout in
    let on : (not (p + 32 + n == null) && (block_end h p == p + 32 + n)) ≡ true =
      ground (arith, size) in
    rw on (joined-IsHeap h pre n m us inv)
