-- ===== src/Kernel/Heap/Take.antt =====
-- The block that an allocation takes, split or whole.
use exyde.Common.{
  ℕ, ◌+◌, ◌-◌, ◌<◌, ◌≤◌, ◌≡◌, ◌≢◌, refl, ap, ◌∙◌, sym, true, false, List, leb, ◌==◌, if◌then◌else◌,
  arith, Bool-cases, inl, inr,
}
use exyde.Kernel.Chain.{Ptr, null}
use exyde.Kernel.Heap.{Heap, block_is_free, split_block, take_block}
use exyde.Kernel.Heap.Layout.{
  Tile, after, first_free, Layout, Layout-congr, live, used, unused, size_of, cut,
  block_is_free-clear,
}

-- The pointer that `set_link` sets.
abbrev pub linked : Ptr → Heap → Ptr
linked prev h = if prev == null then h.free_head else (h.blocks prev).next_free

-- Before the address `p` nothing differs but the link from `prev`.
pub record Spared (prev : Ptr) (p : ℕ) (h h' : Heap) : Type 0 where
  pub others : (a : Ptr) → a < p → a ≢ prev → h'.blocks a ≡ h.blocks a
  pub size : (h'.blocks prev).size ≡ (h.blocks prev).size
  pub flags : (h'.blocks prev).flags ≡ (h.blocks prev).flags
  pub head : (prev == null) ≡ false → h'.free_head ≡ h.free_head
  pub start : h'.start ≡ h.start
  pub end : h'.end ≡ h.end

-- The block `p`, split or taken whole.
module _ (h : Heap) (prev p need : ℕ) (below : prev < p) where
  pub take_block-Spared : Spared prev p h (take_block prev p need h)
  take_block-Spared = elim (Bool-cases (prev == null)) [
    | inl z ↦ elim (Bool-cases (leb 48 ((h.blocks p).size - need))) [
      | inl big ↦
          rw (z, big)
            (record {
              others = λ a lt ne. ground arith;
              size = ground arith;
              flags = ground arith;
              head = λ f. ground arith;
              start = refl;
              end = refl;
            })
      | inr low ↦
          rw (z, low)
            (record {
              others = λ a lt ne. ground arith;
              size = ground arith;
              flags = ground arith;
              head = λ f. ground arith;
              start = refl;
              end = refl;
            })
    ]
    | inr z ↦ elim (Bool-cases (leb 48 ((h.blocks p).size - need))) [
      | inl big ↦
          rw (z, big)
            (record {
              others = λ a lt ne. ground arith;
              size = ground arith;
              flags = ground arith;
              head = λ f. refl;
              start = refl;
              end = refl;
            })
      | inr low ↦
          rw (z, low)
            (record {
              others = λ a lt ne. ground arith;
              size = ground arith;
              flags = ground arith;
              head = λ f. refl;
              start = refl;
              end = refl;
            })
    ]
  ]

  -- The row behind the block is not touched, as the rest of a split lies in the block.
  take_block-behind :
      need ≤ (h.blocks p).size
      → (a : Ptr) → p + 32 + (h.blocks p).size ≤ a
      → (take_block prev p need h).blocks a ≡ h.blocks a
  take_block-behind fit a le = elim (Bool-cases (prev == null)) [
    | inl z ↦ elim (Bool-cases (leb 48 ((h.blocks p).size - need))) [
      | inl big ↦ rw (z, big) (ground arith)
      | inr low ↦ rw (z, low) (ground arith)
    ]
    | inr z ↦ elim (Bool-cases (leb 48 ((h.blocks p).size - need))) [
      | inl big ↦ rw (z, big) (ground arith)
      | inr low ↦ rw (z, low) (ground arith)
    ]
  ]

  take_block-used : block_is_free ((take_block prev p need h).blocks p) ≡ false
  unfolding block_is_free
  take_block-used =
      let one : (p == p) ≡ true = ground arith in
      rw one (
        block_is_free-clear (record {
          size = 0;
          next_free = null;
          flags = ((split_block prev p need h).blocks p).flags;
        }))

  take_block-split :
      leb 48 ((h.blocks p).size - need) ≡ true
      → let h' = take_block prev p need h in
        let rem = p + 32 + need in
        (linked prev h' ≡ rem)
        × ((h'.blocks p).size ≡ need)
        × (h'.blocks rem ≡ record {
          size = (h.blocks p).size - need - 32;
          next_free = (h.blocks p).next_free;
          flags = 1;
        })
        × (h'.live_payload ≡ h.live_payload + need)
  take_block-split big = elim (Bool-cases (prev == null)) [
    | inl z ↦ rw (z, big) (ground arith, ground arith, ground arith, ground arith)
    | inr z ↦ rw (z, big) (ground arith, ground arith, ground arith, ground arith)
  ]

  take_block-whole :
      leb 48 ((h.blocks p).size - need) ≡ false
      → let h' = take_block prev p need h in
        (linked prev h' ≡ (h.blocks p).next_free)
        × ((h'.blocks p).size ≡ (h.blocks p).size)
        × (h'.live_payload ≡ h.live_payload + (h.blocks p).size)
  take_block-whole low = elim (Bool-cases (prev == null)) [
    | inl z ↦ rw (z, low) (ground arith, ground arith, ground arith)
    | inr z ↦ rw (z, low) (ground arith, ground arith, ground arith)
  ]

  pub take_block-Layout :
      (e : ℕ) (t : Tile) (ts : List Tile)
      → need ≤ size_of t
      → (h.blocks p).size ≡ size_of t
      → (h.blocks p).next_free ≡ first_free (after p t) ts
      → Layout h.blocks (after p t) e ts
      → let h' = take_block prev p need h in
        (linked prev h' ≡ first_free p (cut need (size_of t) ts))
        × Layout h'.blocks p e (cut need (size_of t) ts)
        × (h'.live_payload + live ts ≡ h.live_payload + live (cut need (size_of t) ts))
  unfolding block_is_free
  take_block-Layout e t ts fit size next rest =
      let h' = take_block prev p need h in
      let behind =
        Layout-congr h.blocks h'.blocks (after p t) e ts
          (λ a le. take_block-behind (omega (arith, size)) a (omega (arith, size))) rest in
      elim (Bool-cases (leb 48 (size_of t - need))) [
        | inl big ↦
            let (to_rem, small, rem, counted) =
              take_block-split (ap (λ n. leb 48 (n - need)) size ∙ big) in
            let there : after (after p (used need)) (unused (size_of t - need - 32)) ≡ after p t =
              ground arith in
            rw big (
              to_rem,
              (
                small,
                take_block-used,
                (λ f. cc),
                (
                  ap (λ b. b.size) rem ∙ ap (λ n. n - need - 32) size,
                  ap block_is_free rem,
                  (λ f. ap (λ b. b.next_free) rem ∙ (next ∙ ap (λ a. first_free a ts) (sym there))),
                  coe 1 0 (k. Layout h'.blocks (there k) e ts) behind,
                ),
              ),
              omega (arith, counted),
            )
        | inr low ↦
            let (to_next, same, counted) =
              take_block-whole (ap (λ n. leb 48 (n - need)) size ∙ low) in
            rw low (
              to_next ∙ next,
              (same ∙ size, take_block-used, (λ f. cc), behind),
              omega (arith, counted, size),
            )
      ]
