-- ===== src/Kernel/Heap/JoinLast.antt =====
-- The joining of a block with a free one before it, behind a release.
use exyde.Common.{
  ℕ, ◌+◌, ◌≤◌, ◌≡◌, ◌⊎◌, refl, ap, true, false, not, ◌&&◌, List, [], ◌∷◌, ◌++◌, append_assoc, ◌==◌,
  arith, inl, inr,
}
use exyde.Kernel.Chain.{Ptr, null}
use exyde.Kernel.Heap.{Block, Heap, merge_prev, block_end}
use exyde.Kernel.Heap.Layout.{
  Tile, used, unused, after, Row, Row-split, row_end, row_end-ge, IsHeap, join_last, grow_first,
}
use exyde.Kernel.Heap.Insert.{last_free}
use exyde.Kernel.Heap.Join.{joined-IsHeap}

-- A row is empty or has a last block.
pub data Ending : List Tile → Type 0 where
  nothing_before : Ending []
  after_used : (ts : List Tile) (k : ℕ) → Ending (ts ++ (used k ∷ []))
  after_unused : (ts : List Tile) (k : ℕ) → Ending (ts ++ (unused k ∷ []))

behind_one : (t : Tile) (ts : List Tile) → Ending ts → Ending (t ∷ ts)
behind_one (used n) _ nothing_before = after_used [] n
behind_one (unused n) _ nothing_before = after_unused [] n
behind_one t _ (after_used ts k) = after_used (t ∷ ts) k
behind_one t _ (after_unused ts k) = after_unused (t ∷ ts) k

pub ending : (ts : List Tile) → Ending ts
ending [] = nothing_before
ending (t ∷ ts) = behind_one t ts (ending ts)

-- A row and the block at its end.
last_free-append :
    (prev : Ptr) (p : ℕ) (ts us : List Tile)
    → last_free prev p (ts ++ us) ≡ last_free (last_free prev p ts) (row_end p ts) us
last_free-append prev p [] us = refl
last_free-append prev p (used n ∷ ts) us = last_free-append prev (p + 32 + n) ts us
last_free-append prev p (unused n ∷ ts) us = last_free-append p (p + 32 + n) ts us

row_end-append : (p : ℕ) (ts us : List Tile) → row_end p (ts ++ us) ≡ row_end (row_end p ts) us
row_end-append p [] us = refl
row_end-append p (t ∷ ts) us = row_end-append (after p t) ts us

join_last-used :
    (ts : List Tile) (k : ℕ) (rs : List Tile)
    → join_last (ts ++ (used k ∷ [])) rs ≡ ts ++ (used k ∷ rs)
join_last-used [] k rs = refl
join_last-used (used n ∷ []) k rs = refl
join_last-used (unused n ∷ []) k rs = refl
join_last-used (used n ∷ u ∷ ts) k rs = ap (λ l. used n ∷ l) (join_last-used (u ∷ ts) k rs)
join_last-used (unused n ∷ u ∷ ts) k rs = ap (λ l. unused n ∷ l) (join_last-used (u ∷ ts) k rs)

join_last-unused :
    (ts : List Tile) (k : ℕ) (rs : List Tile)
    → join_last (ts ++ (unused k ∷ [])) rs ≡ ts ++ grow_first k rs
join_last-unused [] k rs = refl
join_last-unused (used n ∷ []) k rs = refl
join_last-unused (unused n ∷ []) k rs = refl
join_last-unused (used n ∷ u ∷ ts) k rs = ap (λ l. used n ∷ l) (join_last-unused (u ∷ ts) k rs)
join_last-unused (unused n ∷ u ∷ ts) k rs = ap (λ l. unused n ∷ l) (join_last-unused (u ∷ ts) k rs)

-- The last free block of a row ends in it.
last_free-end :
    (b : Ptr → Block) (prev x : Ptr) (p e : ℕ) (ts : List Tile)
    → Row b x p e ts
    → (last_free prev p ts ≡ prev)
      ⊎ (last_free prev p ts + 32 + (b (last_free prev p ts)).size ≤ row_end p ts)
last_free-end b prev x p e [] row = inl refl
last_free-end b prev x p e (used n ∷ ts) (_, _, _, row) =
    last_free-end b prev x (p + 32 + n) e ts row
last_free-end b prev x p e (unused n ∷ ts) (size, _, _, row) =
    let ge = row_end-ge (p + 32 + n) ts in
    elim (last_free-end b p x (p + 32 + n) e ts row) [
      | inl same ↦ inr (
          coe 1 0 (i. same i + 32 + (b (same i)).size ≤ row_end (p + 32 + n) ts)
            (omega (arith, size, ge)))
      | inr le ↦ inr le
    ]

-- A free block and its neighbour before it.
module _ (h : Heap) (s : ℕ) (us : List Tile) where
  merge_prev-used :
      (ts : List Tile) (k : ℕ)
      → IsHeap h (ts ++ (used k ∷ unused s ∷ us))
      → IsHeap
          (merge_prev (last_free null h.start ts) (row_end h.start ts + 32 + k) h)
          (ts ++ (used k ∷ unused s ∷ us))
  merge_prev-used ts k inv =
      let p = last_free null h.start ts in
      let (row, _) = Row-split h.blocks null h.start h.end ts (used k ∷ unused s ∷ us) inv.layout in
      let off : (not (p == null) && (block_end h p == row_end h.start ts + 32 + k)) ≡ false =
        elim (last_free-end h.blocks null (row_end h.start ts + 32 + k) h.start (row_end h.start ts)
          ts row) [ inl e ↦ ground (arith, e) | inr le ↦ ground (arith, le) ] in
      rw off inv

  merge_prev-unused :
      (ts : List Tile) (k : ℕ)
      → IsHeap h (ts ++ (unused k ∷ unused s ∷ us))
      → IsHeap
          (merge_prev (row_end h.start ts) (row_end h.start ts + 32 + k) h)
          (ts ++ (unused (k + (32 + s)) ∷ us))
  merge_prev-unused ts k inv =
      let p = row_end h.start ts in
      let (_, (size, _, _, _)) =
        Row-split h.blocks null h.start h.end ts (unused k ∷ unused s ∷ us) inv.layout in
      let on : (not (p == null) && (block_end h p == p + 32 + k)) ≡ true =
        ground (arith, size, row_end-ge h.start ts, inv.positive) in
      rw on (joined-IsHeap h ts k s us inv)

  pub merge_prev-IsHeap :
      (pre : List Tile)
      → Ending pre
      → IsHeap h (pre ++ (unused s ∷ us))
      → IsHeap
          (merge_prev (last_free null h.start pre) (row_end h.start pre) h)
          (join_last pre (unused s ∷ us))
  merge_prev-IsHeap _ nothing_before inv = inv
  merge_prev-IsHeap _ (after_used ts k) inv =
      rw
        (
          last_free-append null h.start ts (used k ∷ []),
          row_end-append h.start ts (used k ∷ []),
          join_last-used ts k (unused s ∷ us),
        )
        (merge_prev-used ts k
          (coe 0 1 (i. IsHeap h (append_assoc ts (used k ∷ []) (unused s ∷ us) i)) inv))
  merge_prev-IsHeap _ (after_unused ts k) inv =
      rw
        (
          last_free-append null h.start ts (unused k ∷ []),
          row_end-append h.start ts (unused k ∷ []),
          join_last-unused ts k (unused s ∷ us),
        )
        (merge_prev-unused ts k
          (coe 0 1 (i. IsHeap h (append_assoc ts (unused k ∷ []) (unused s ∷ us) i)) inv))
