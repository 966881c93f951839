-- ===== src/Kernel/Heap/Insert.antt =====
-- The place of a block in the free list, and the link to it.
use exyde.Common.{
  ℕ, zero, suc, ◌+◌, ◌<◌, ◌≤◌, ◌≡◌, ◌⊎◌, refl, ap, ◌∙◌, sym, true, false, not, ◌&&◌, List, [], ◌∷◌,
  ltb, ◌==◌, arith, length, inl, inr,
}
use exyde.Kernel.Chain.{Ptr, null}
use exyde.Kernel.Heap.{Block, Heap, block_is_free, place_loop}
use exyde.Kernel.Heap.Layout.{Tile, used, unused, first_to, Row, row_end, row_end-ge}

-- The last free block of a row at `p`, and `prev` if it has none.
abbrev pub last_free : Ptr → ℕ → List Tile → Ptr
last_free prev p [] = prev
last_free prev p (used n ∷ ts) = last_free prev (p + 32 + n) ts
last_free prev p (unused n ∷ ts) = last_free p (p + 32 + n) ts

-- A row without free blocks, or one with a first and a last.
pub last_free-cases :
    (prev : Ptr) (p : ℕ) (ts : List Tile)
    → ((last_free prev p ts ≡ prev) × ((x : Ptr) → first_to x p ts ≡ x))
      ⊎ ((p ≤ last_free prev p ts)
          × (last_free prev p ts < row_end p ts)
          × ((x y : Ptr) → first_to x p ts ≡ first_to y p ts))
last_free-cases prev p [] = inl (refl, λ x. refl)
last_free-cases prev p (used n ∷ ts) = elim (last_free-cases prev (p + 32 + n) ts) [
  | inl e ↦ inl e
  | inr (le, lt, same) ↦ inr (omega arith, lt, same)
]
last_free-cases prev p (unused n ∷ ts) =
    let ge = row_end-ge (p + 32 + n) ts in
    elim (last_free-cases p (p + 32 + n) ts) [
      | inl (e, _) ↦ inr (omega (arith, e), omega (arith, e, ge), λ x y. refl)
      | inr (le, lt, _) ↦ inr (omega arith, lt, λ x y. refl)
    ]

-- With fuel for the free blocks of a row that ends at `blk`, the loop stops behind the last of them.
pub place_loop-last :
    (fuel : ℕ) (h : Heap) (blk : Ptr) (prev x : Ptr) (p : ℕ) (ts : List Tile)
    → Row h.blocks x p blk ts
    → row_end p ts ≡ blk
    → 0 < p
    → length ts < fuel
    → (not (x == null) && ltb x blk) ≡ false
    → place_loop fuel h blk prev (first_to x p ts) ≡ (last_free prev p ts, x)
unfolding place_loop
place_loop-last zero h blk prev x p ts row end pos lt stop = absurd (omega arith)
place_loop-last (suc fuel) h blk prev x p [] row end pos lt stop = rw stop refl
place_loop-last (suc fuel) h blk prev x p (used n ∷ ts) row end pos lt stop =
    place_loop-last (suc fuel) h blk prev x (p + 32 + n) ts row.3 end (omega arith) (omega arith)
      stop
place_loop-last (suc fuel) h blk prev x p (unused n ∷ ts) (size, free, next, row) end pos lt stop =
    let ge = row_end-ge (p + 32 + n) ts in
    let go : (not (p == null) && ltb p blk) ≡ true = ground (arith, ge, end) in
    let step : (h.blocks p).next_free ≡ first_to x (p + 32 + n) ts = next refl in
    rw (go, step)
      (place_loop-last fuel h blk p x (p + 32 + n) ts row end (omega arith) (omega arith) stop)

-- The headers of a row behind a write of `y` to the link of its last free block.
abbrev pub Relinked : (Ptr → Block) → (Ptr → Block) → Ptr → Ptr → ℕ → ℕ → Type 0
Relinked b b' last y p e =
    (a : Ptr)
    → p ≤ a
    → a < e
    → ((last == a) ≡ true → b' a ≡ record (b a) { next_free = y })
      × ((last == a) ≡ false → b' a ≡ b a)

pub Row-relink :
    (b b' : Ptr → Block) (prev x y : Ptr) (p e : ℕ) (ts : List Tile)
    → prev < p
    → Relinked b b' (last_free prev p ts) y p (row_end p ts)
    → Row b x p e ts
    → Row b' y p e ts
unfolding block_is_free
Row-relink b b' prev x y p e [] below re l = l
Row-relink b b' prev x y p e (used n ∷ ts) below re (size, free, next, row) =
    let ge = row_end-ge (p + 32 + n) ts in
    let off : (last_free prev (p + 32 + n) ts == p) ≡ false =
      elim (last_free-cases prev (p + 32 + n) ts) [
        | inl (e, _) ↦ ground (arith, e)
        | inr (le, _, _) ↦ ground (arith, le)
      ] in
    let same = (re p (omega arith) (omega (arith, ge))).1 off in
    (
      ap (λ c. c.size) same ∙ size,
      ap block_is_free same ∙ free,
      (λ z. cc),
      Row-relink b b' prev x y (p + 32 + n) e ts (omega arith) (λ a le lt. re a (omega arith) lt)
          row,
    )
Row-relink b b' prev x y p e (unused n ∷ ts) below re (size, free, next, row) =
    let ge = row_end-ge (p + 32 + n) ts in
    let rest =
      Row-relink b b' p x y (p + 32 + n) e ts (omega arith) (λ a le lt. re a (omega arith) lt)
        row in
    elim (last_free-cases p (p + 32 + n) ts) [
      | inl (e, first) ↦
          let here = (re p (omega arith) (omega (arith, ge))).0 (ground (arith, e)) in
          (
            ap (λ c. c.size) here ∙ size,
            ap block_is_free here ∙ free,
            (λ z. ap (λ c. c.next_free) here ∙ sym (first y)),
            rest,
          )
      | inr (le, _, first) ↦
          let here = (re p (omega arith) (omega (arith, ge))).1 (ground (arith, le)) in
          (
            ap (λ c. c.size) here ∙ size,
            ap block_is_free here ∙ free,
            (λ z. ap (λ c. c.next_free) here ∙ (next refl ∙ first x y)),
            rest,
          )
    ]
