-- ===== src/Kernel/Heap/Release.antt =====
-- A release puts the block in the free list and joins it with its neighbours.
use exyde.Common.{
  ℕ, ◌+◌, ◌<◌, ◌≡◌, refl, ap, ◌∙◌, sym, true, false, not, ◌&&◌, List, [], ◌∷◌, ◌++◌, ltb, ◌==◌,
  if◌then◌else◌, arith, length, inl, inr,
}
use exyde.Kernel.Chain.{Ptr, null}
use exyde.Kernel.Heap.{
  Heap, block_is_free, set_free, set_link, place_loop, set_block, merge_next, merge_prev, insert_at,
  free_list_insert,
}
use exyde.Kernel.Heap.Layout.{
  Tile, used, unused, first_to, first_to-cases, first_to-append, Row, Row-congr, Row-append,
  Row-split, row_end, row_end-ge, first_free, Layout, live, live-append, IsHeap, join_next,
  join_last, block_is_free-set,
}
use exyde.Kernel.Heap.Join.{merge_next-IsHeap}
use exyde.Kernel.Heap.JoinLast.{ending, merge_prev-IsHeap}
use exyde.Kernel.Heap.Insert.{last_free, last_free-cases, place_loop-last, Relinked, Row-relink}
use exyde.Kernel.Heap.Links.{set_link-block, set_link-fields, merge_next-start}

-- A heap whose block between `pre` and `post` is used and no longer counted.
pub record Releasing (h : Heap) (pre : List Tile) (n : ℕ) (post : List Tile) : Type 0 where
  pub layout : Layout h.blocks h.start h.end (pre ++ (used n ∷ post))
  pub head : h.free_head ≡ first_free h.start (pre ++ (used n ∷ post))
  pub counted : h.live_payload ≡ live pre + live post
  pub positive : 0 < h.start

module _ (h : Heap) (pre : List Tile) (n : ℕ) (post : List Tile)
    (inv : Releasing h pre n post) where
  blk : Ptr
  blk = row_end h.start pre

  cur : Ptr
  cur = first_free (blk + 32 + n) post

  prev : Ptr
  prev = last_free null h.start pre

  -- The state with the flag set, and the one with the block in the list.
  flagged : Heap
  flagged = set_block h blk (record (set_free (h.blocks blk)) { next_free = null })

  listed : Heap
  listed =
      set_link prev blk (set_block flagged blk (record (flagged.blocks blk) { next_free = cur }))

  rows : Row h.blocks cur h.start blk pre × Row h.blocks null blk h.end (used n ∷ post)
  unfolding blk cur
  rows = Row-split h.blocks null h.start h.end pre (used n ∷ post) inv.layout

  prev-lt : prev < blk
  unfolding prev blk
  prev-lt = elim (last_free-cases null h.start pre) [
    | inl (e, _) ↦ omega (arith, e, row_end-ge h.start pre, inv.positive)
    | inr (_, lt, _) ↦ lt
  ]

  place-listed :
      (fuel : ℕ)
      → length pre < fuel
      → place_loop fuel flagged blk null flagged.free_head ≡ (prev, cur)
  unfolding flagged prev cur blk
  place-listed fuel lt =
      let row =
        Row-congr h.blocks flagged.blocks cur h.start blk pre (λ a le below. ground arith) rows.0 in
      let stop : (not (cur == null) && ltb cur blk) ≡ false =
        elim (first_to-cases null (blk + 32 + n) post) [
          | inl e ↦ ground (arith, e)
          | inr (le, _) ↦ ground (arith, le)
        ] in
      ap (place_loop fuel flagged blk null)
        (inv.head ∙ first_to-append null h.start pre (used n ∷ post))
      ∙ place_loop-last fuel flagged blk null cur h.start pre row refl inv.positive lt stop

  listed-blk : listed.blocks blk ≡ record (set_free (h.blocks blk)) { next_free = cur }
  unfolding listed flagged
  listed-blk =
      let below = prev-lt in
      let off : (not (prev == null) && (prev == blk)) ≡ false = ground arith in
      let one : (blk == blk) ≡ true = ground arith in
      set_link-block prev blk
        (set_block flagged blk (record (flagged.blocks blk) { next_free = cur })) blk
      ∙ rw (off, one) refl

  listed-other :
      (a : Ptr)
      → (blk == a) ≡ false
      → listed.blocks a ≡ (
          if not (prev == null) && (prev == a)
          then record (h.blocks a) { next_free = blk }
          else h.blocks a)
  unfolding listed flagged
  listed-other a off =
      set_link-block prev blk
        (set_block flagged blk (record (flagged.blocks blk) { next_free = cur })) a
      ∙ rw off refl

  listed-fields :
      (listed.start ≡ h.start)
      × (listed.end ≡ h.end)
      × (listed.live_payload ≡ h.live_payload)
      × (listed.free_head ≡ (if prev == null then blk else h.free_head))
  unfolding listed flagged
  listed-fields =
      set_link-fields prev blk
        (set_block flagged blk (record (flagged.blocks blk) { next_free = cur }))

  -- The row starts at the block if it has no free block before it, else where it did.
  listed-head : listed.free_head ≡ first_free h.start (pre ++ (unused n ∷ post))
  unfolding blk prev
  listed-head =
      let (_, _, _, head) = listed-fields in
      head
      ∙ (elim (last_free-cases null h.start pre) [
        | inl (e, first) ↦ (ground (arith, e)) ∙ sym (first blk)
        | inr (le, lt, same) ↦
            let off : (prev == null) ≡ false = ground (arith, le, inv.positive) in
            rw off (
              inv.head
              ∙ first_to-append null h.start pre (used n ∷ post)
              ∙ same (first_to null blk (used n ∷ post)) blk)
      ])
      ∙ sym (first_to-append null h.start pre (unused n ∷ post))

  relinked : Relinked h.blocks listed.blocks prev blk h.start blk
  relinked a le lt =
      let pos = inv.positive in
      let off : (blk == a) ≡ false = ground arith in
      (λ z. listed-other a off ∙ ground arith, λ z. listed-other a off ∙ ground arith)

  listed-row : Layout listed.blocks h.start h.end (pre ++ (unused n ∷ post))
  unfolding blk cur prev block_is_free
  listed-row =
      let below = prev-lt in
      let (to_blk, (size, free, next, behind)) = rows in
      let row =
        Row-relink h.blocks listed.blocks null cur blk h.start blk pre inv.positive relinked
          to_blk in
      let row' =
        Row-congr h.blocks listed.blocks null (blk + 32 + n) h.end post
          (λ a le lt.
            let off : (blk == a) ≡ false = ground arith in listed-other a off ∙ ground arith)
          behind in
      Row-append listed.blocks null h.start h.end pre (unused n ∷ post) row (
        ap (λ c. c.size) listed-blk ∙ size,
        ap block_is_free listed-blk ∙ block_is_free-set (h.blocks blk),
        (λ z. ap (λ c. c.next_free) listed-blk),
        row',
      )

  -- Behind the loop and the link the block is in the free list, not yet joined.
  listed-IsHeap : IsHeap listed (pre ++ (unused n ∷ post))
  listed-IsHeap =
      let (start, end, live_eq, head) = listed-fields in
      record {
        layout =
            coe 1 0 (k. Layout listed.blocks (start k) (end k) (pre ++ (unused n ∷ post)))
              listed-row;
        head = listed-head ∙ ap (λ p. first_free p (pre ++ (unused n ∷ post))) (sym start);
        counted = live_eq ∙ inv.counted ∙ sym (live-append pre (unused n ∷ post));
        positive = omega (arith, start, inv.positive);
      }

  joined_next : Heap
  joined_next = merge_next blk cur listed

  joined_next-start : joined_next.start ≡ h.start
  unfolding joined_next
  joined_next-start =
      let (start, _, _, _) = listed-fields in merge_next-start blk cur listed ∙ start

  joined_next-IsHeap : IsHeap joined_next (pre ++ join_next n post)
  unfolding joined_next blk cur
  joined_next-IsHeap =
      let (start, _, _, _) = listed-fields in
      coe 0 1
        (i.
          IsHeap
            (merge_next (row_end (start i) pre) (first_free (row_end (start i) pre + 32 + n) post)
              listed)
            (pre ++ join_next n post))
        (merge_next-IsHeap listed pre n post listed-IsHeap)

  joined_last-IsHeap :
      (s : ℕ) (us : List Tile)
      → IsHeap joined_next (pre ++ (unused s ∷ us))
      → IsHeap (merge_prev prev blk joined_next) (join_last pre (unused s ∷ us))
  unfolding prev blk
  joined_last-IsHeap s us now =
      let start = joined_next-start in
      coe 0 1
        (i.
          IsHeap (merge_prev (last_free null (start i) pre) (row_end (start i) pre) joined_next)
            (join_last pre (unused s ∷ us)))
        (merge_prev-IsHeap joined_next s us pre (ending pre) now)

-- A used block that is no longer counted becomes a free one, joined with its free neighbours.
pub free_list_insert-IsHeap :
    (h : Heap) (pre : List Tile) (n : ℕ) (post : List Tile)
    → Releasing h pre n post
    → (fuel : ℕ) → length pre < fuel
    → IsHeap (free_list_insert fuel (row_end h.start pre) h) (join_last pre (join_next n post))
unfolding free_list_insert joined_next listed flagged blk
free_list_insert-IsHeap h pre n post inv fuel lt =
    let done : IsHeap
        (merge_prev (prev h pre n post inv) (row_end h.start pre) (joined_next h pre n post inv))
        (join_last pre (join_next n post)) =
      last_step post inv (joined_next-IsHeap h pre n post inv) in
    coe 1 0
      (i.
        IsHeap
          (insert_at (row_end h.start pre) (place-listed h pre n post inv fuel lt i)
            (flagged h pre n post inv))
          (join_last pre (join_next n post)))
      done
  where
    last_step :
        (post : List Tile) (inv : Releasing h pre n post)
        → IsHeap (joined_next h pre n post inv) (pre ++ join_next n post)
        → IsHeap
            (merge_prev
              (prev h pre n post inv)
              (blk h pre n post inv)
              (joined_next h pre n post inv))
            (join_last pre (join_next n post))
    last_step [] inv = joined_last-IsHeap h pre n [] inv n []
    last_step (used m ∷ us) inv = joined_last-IsHeap h pre n (used m ∷ us) inv n (used m ∷ us)
    last_step (unused m ∷ us) inv = joined_last-IsHeap h pre n (unused m ∷ us) inv (n + (32 + m)) us
