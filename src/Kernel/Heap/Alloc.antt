-- ===== src/Kernel/Heap/Alloc.antt =====
-- An allocation from the free list is the first fit of the row.
use exyde.Common.{
  ℕ, zero, suc, ◌+◌, ◌<◌, ◌≡◌, refl, ap, ap₂, bit_and, ◌∙◌, sym, true, false, not, Option, some,
  none, List, [], ◌∷◌, leb, ◌==◌, if◌then◌else◌, arith, length, Bool-cases, inl, inr,
}
use exyde.Kernel.Chain.{Ptr, null}
use exyde.Kernel.Heap.{Heap, block_is_free, fit_loop, alloc_from_list}
use exyde.Kernel.Heap.Layout.{
  Tile, first_free, Layout, live, IsHeap, put_front, used, unused, first_fit,
}
use exyde.Kernel.Heap.Take.{linked, Spared, take_block-Spared, take_block-Layout}

-- The result of an allocation from a row at `p`, for its first fit.
abbrev pub Fitted : Ptr → ℕ → ℕ → List Tile → Heap → Ptr × Heap → Option (Ptr × List Tile) → Type 0
Fitted prev p e ts h (addr, h') none = (addr ≡ null) × (h' ≡ h)
Fitted prev p e ts h (addr, h') (some (a, ts')) =
    (addr ≡ a + 32)
    × Spared prev p h h'
    × (linked prev h' ≡ first_free p ts')
    × Layout h'.blocks p e ts'
    × (h'.live_payload + live ts ≡ h.live_payload + live ts')

-- A block that is passed over stays in front of the row.
Fitted-used :
    (prev p e n : ℕ) (ts : List Tile) (h : Heap) (r : Ptr × Heap) (f : Option (Ptr × List Tile))
    → prev < p
    → Layout h.blocks p e (used n ∷ ts)
    → Fitted prev (p + 32 + n) e ts h r f
    → Fitted prev p e (used n ∷ ts) h r (put_front (used n) f)
Fitted-used prev p e n ts h (addr, h') none below l fit = fit
Fitted-used prev p e n ts h (addr, h') (some (a, ts')) below (size, free, next, rest)
      (at, s, link, l, counted) =
    let same = s.others p (omega arith) (λ z. omega arith) in
    (
      at,
      record {
        others = λ b lt ne. s.others b (omega arith) ne;
        size = s.size;
        flags = s.flags;
        head = s.head;
        start = s.start;
        end = s.end;
      },
      link,
      (ap (λ b. b.size) same ∙ size, ap block_is_free same ∙ free, (λ z. cc), l),
      omega (arith, counted),
    )

Fitted-unused :
    (prev p e n : ℕ) (ts : List Tile) (h : Heap) (r : Ptr × Heap) (f : Option (Ptr × List Tile))
    → prev < p
    → linked prev h ≡ p
    → Layout h.blocks p e (unused n ∷ ts)
    → Fitted p (p + 32 + n) e ts h r f
    → Fitted prev p e (unused n ∷ ts) h r (put_front (unused n) f)
unfolding block_is_free
Fitted-unused prev p e n ts h (addr, h') none below to_p l fit = fit
Fitted-unused prev p e n ts h (addr, h') (some (a, ts')) below to_p (size, free, next, rest)
      (at, s, link, l, counted) =
    let same = s.others prev (omega arith) (λ z. omega arith) in
    let off : (p == null) ≡ false = ground arith in
    let link' : (h'.blocks p).next_free ≡ first_free (p + 32 + n) ts' =
      coe 0 1
        (k. (if off k then h'.free_head else (h'.blocks p).next_free) ≡ first_free (p + 32 + n) ts')
        link in
    (
      at,
      record {
        others = λ b lt ne. s.others b (omega arith) (λ z. omega arith);
        size = ap (λ b. b.size) same;
        flags = ap (λ b. b.flags) same;
        head = λ z. s.head off;
        start = s.start;
        end = s.end;
      },
      ap₂ (λ f x. if prev == null then f else x) (s.head off) (ap (λ b. b.next_free) same) ∙ to_p,
      (s.size ∙ size, ap (λ f. not (bit_and f 1 == 0)) s.flags ∙ free, (λ z. link'), l),
      counted,
    )

-- With fuel for the free blocks of the row the allocation is the first fit of the row.
pub fit_loop-Fitted :
    (fuel need prev p e : ℕ) (ts : List Tile) (h : Heap)
    → prev < p
    → length ts < fuel
    → linked prev h ≡ first_free p ts
    → Layout h.blocks p e ts
    → Fitted prev p e ts h (fit_loop fuel need prev (first_free p ts) h) (first_fit need p ts)
unfolding fit_loop
fit_loop-Fitted zero need prev p e ts h below lt link l = absurd (omega arith)
fit_loop-Fitted (suc fuel) need prev p e [] h below lt link l = (refl, refl)
fit_loop-Fitted (suc fuel) need prev p e (used n ∷ ts) h below lt link l =
    Fitted-used prev p e n ts h (fit_loop (suc fuel) need prev (first_free (p + 32 + n) ts) h)
      (first_fit need (p + 32 + n) ts) below l
      (fit_loop-Fitted (suc fuel) need prev (p + 32 + n) e ts h (omega arith) (omega arith) link
        l.3)
fit_loop-Fitted (suc fuel) need prev p e (unused n ∷ ts) h below lt link l =
    let (size, free, next, rest) = l in
    let off : (p == null) ≡ false = ground arith in
    let step : (h.blocks p).next_free ≡ first_free (p + 32 + n) ts = next refl in
    elim (Bool-cases (leb need n)) [
      | inl fit ↦
          let fit' : leb need (h.blocks p).size ≡ true = ap (leb need) size ∙ fit in
          let (link', l', counted) =
            take_block-Layout h prev p need below e (unused n) ts (ground arith) size step rest in
          rw (off, fit', fit) (refl, take_block-Spared h prev p need below, link', l', counted)
      | inr small ↦
          let small' : leb need (h.blocks p).size ≡ false = ap (leb need) size ∙ small in
          let link' : linked p h ≡ first_free (p + 32 + n) ts = rw off step in
          rw (off, small', small)
            (Fitted-unused prev p e n ts h (fit_loop fuel need p (h.blocks p).next_free h)
              (first_fit need (p + 32 + n) ts) below link l
              (coe 1 0
                (k.
                  Fitted p (p + 32 + n) e ts h (fit_loop fuel need p (step k) h)
                    (first_fit need (p + 32 + n) ts))
                (fit_loop-Fitted fuel need p (p + 32 + n) e ts h (omega arith) (omega arith) link'
                  rest)))
    ]

-- A heap behind an allocation.
abbrev pub Allocated : List Tile → Heap → Ptr × Heap → Option (Ptr × List Tile) → Type 0
Allocated ts h (addr, h') none = (addr ≡ null) × (h' ≡ h)
Allocated ts h (addr, h') (some (a, ts')) = (addr ≡ a + 32) × IsHeap h' ts'

Fitted-Allocated :
    (ts : List Tile) (h : Heap) (r : Ptr × Heap) (f : Option (Ptr × List Tile))
    → IsHeap h ts
    → Fitted null h.start h.end ts h r f
    → Allocated ts h r f
Fitted-Allocated ts h (addr, h') none inv fit = fit
Fitted-Allocated ts h (addr, h') (some (a, ts')) inv (at, s, link, l, counted) = (
  at,
  record {
    layout = coe 1 0 (k. Layout h'.blocks (s.start k) (s.end k) ts') l;
    head = link ∙ ap (λ p. first_free p ts') (sym s.start);
    counted = omega (arith, counted, inv.counted);
    positive = omega (arith, s.start, inv.positive);
  },
)

-- On a well-formed heap, with fuel for its blocks, an allocation from the free list takes the first
-- fit of the row and keeps the heap well formed, or it returns NULL and changes nothing where no
-- free block is large enough.
pub alloc-Allocated :
    (fuel need : ℕ) (ts : List Tile) (h : Heap)
    → IsHeap h ts
    → length ts < fuel
    → Allocated ts h (alloc_from_list fuel need h) (first_fit need h.start ts)
alloc-Allocated fuel need ts h inv lt =
    Fitted-Allocated ts h (alloc_from_list fuel need h) (first_fit need h.start ts) inv (
      coe 1 0
        (k.
          Fitted null h.start h.end ts h (fit_loop fuel need null (inv.head k) h)
            (first_fit need h.start ts))
        (fit_loop-Fitted fuel need null h.start h.end ts h inv.positive lt inv.head inv.layout))
