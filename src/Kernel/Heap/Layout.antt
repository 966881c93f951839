-- ===== src/Kernel/Heap/Layout.antt =====
-- The heap as a row of blocks from its start to its end, and what an allocation and a release do to
-- that row.
use exyde.Common.{
  ℕ, ◌+◌, ◌-◌, ◌<◌, ◌≤◌, ◌^◌, ◌/◌, ◌≡◌, refl, ap, ◌∙◌, sym, Bool, true, false, not, ◌&&◌, Option,
  some, none, List, [], ◌∷◌, ◌++◌, ◌⊎◌, inl, inr, leb, ◌==◌, if◌then◌else◌, arith, bit_and,
}
use exyde.Common.Bits.{bit, bit-bit_and, bit-bit_or, shift-bit}
use exyde.Kernel.Chain.{Ptr, null}
use exyde.Kernel.Heap.{Block, Heap, block_is_free, set_free, clear_free}

-- A block of the row, with its size.
pub data Tile : Type 0 where
  used unused : ℕ → Tile

abbrev pub size_of : Tile → ℕ
size_of (used n) = n
size_of (unused n) = n

abbrev pub is_unused : Tile → Bool
is_unused (used n) = false
is_unused (unused n) = true

abbrev pub after : ℕ → Tile → ℕ
after p t = p + 32 + size_of t

-- The address of the first free block of a row at `p`, and `x` if it has none.
abbrev pub first_to : Ptr → ℕ → List Tile → Ptr
first_to x p [] = x
first_to x p (used n ∷ ts) = first_to x (p + 32 + n) ts
first_to x p (unused n ∷ ts) = p

-- The headers from `p` to `e` are those of the row, each free one linked to the next, the last one
-- to `x`.
abbrev pub Row : (Ptr → Block) → Ptr → ℕ → ℕ → List Tile → Type 0
Row b x p e [] = p ≡ e
Row b x p e (t ∷ ts) =
    ((b p).size ≡ size_of t)
    × (block_is_free (b p) ≡ is_unused t)
    × (is_unused t ≡ true → (b p).next_free ≡ first_to x (after p t) ts)
    × Row b x (after p t) e ts

abbrev pub first_free : ℕ → List Tile → Ptr
first_free p ts = first_to null p ts

abbrev pub Layout : (Ptr → Block) → ℕ → ℕ → List Tile → Type 0
Layout b p e ts = Row b null p e ts

abbrev pub live : List Tile → ℕ
live [] = 0
live (used n ∷ ts) = n + live ts
live (unused n ∷ ts) = live ts

pub record IsHeap (h : Heap) (ts : List Tile) : Type 0 where
  pub layout : Layout h.blocks h.start h.end ts
  pub head : h.free_head ≡ first_free h.start ts
  pub counted : h.live_payload ≡ live ts
  pub positive : 0 < h.start

-- First fit, with a split where the rest is worth it: the address and the row.
abbrev pub put_front : Tile → Option (Ptr × List Tile) → Option (Ptr × List Tile)
put_front t none = none
put_front t (some (a, ts)) = some (a, t ∷ ts)

abbrev pub fits : ℕ → Tile → Bool
fits need t = is_unused t && leb need (size_of t)

abbrev pub cut : ℕ → ℕ → List Tile → List Tile
cut need size ts =
    if leb 48 (size - need) then used need ∷ unused (size - need - 32) ∷ ts else used size ∷ ts

abbrev pub first_fit : ℕ → ℕ → List Tile → Option (Ptr × List Tile)
first_fit need p [] = none
first_fit need p (t ∷ ts) =
    let rest = put_front t (first_fit need (after p t) ts) in
    if fits need t then some (p, cut need (size_of t) ts) else rest

-- The release of a block, which is joined with a free block behind it and before it.
abbrev pub join_next : ℕ → List Tile → List Tile
join_next size [] = unused size ∷ []
join_next size (used n ∷ us) = unused size ∷ used n ∷ us
join_next size (unused n ∷ us) = unused (size + (32 + n)) ∷ us

abbrev pub grow_first : ℕ → List Tile → List Tile
grow_first k [] = []
grow_first k (t ∷ ts) = unused (k + (32 + size_of t)) ∷ ts

abbrev pub join_last : List Tile → List Tile → List Tile
join_last [] rs = rs
join_last (used n ∷ []) rs = used n ∷ rs
join_last (unused n ∷ []) rs = grow_first n rs
join_last (t ∷ u ∷ ts) rs = t ∷ join_last (u ∷ ts) rs

-- Where a row at `p` ends.
abbrev pub row_end : ℕ → List Tile → ℕ
row_end p [] = p
row_end p (t ∷ ts) = row_end (after p t) ts

pub row_end-ge : (p : ℕ) (ts : List Tile) → p ≤ row_end p ts
row_end-ge p [] = omega arith
row_end-ge p (t ∷ ts) = omega (arith, row_end-ge (after p t) ts)

-- The free flag as the code sets it, clears it and tests it.
free_bit : (b : Block) → block_is_free b ≡ not (bit b.flags 0 == 0)
unfolding block_is_free
free_bit b =
    ap (λ x. not (x == 0))
      (ap (λ w. bit_and w 1) (let e : b.flags ≡ b.flags / 2 ^ 0 = omega arith in e)
        ∙ shift-bit b.flags 0)

pub block_is_free-set : (b : Block) → block_is_free (set_free b) ≡ true
block_is_free-set b = free_bit (set_free b) ∙ ground (arith, bit-bit_or b.flags 1 0)

pub block_is_free-clear : (b : Block) → block_is_free (clear_free b) ≡ false
block_is_free-clear b = free_bit (clear_free b) ∙ ground (arith, bit-bit_and b.flags (2 ^ 32 - 2) 0)

-- Free blocks of a row are in it.
pub first_to-cases :
    (x : Ptr) (p : ℕ) (ts : List Tile)
    → (first_to x p ts ≡ x) ⊎ ((p ≤ first_to x p ts) × (first_to x p ts < row_end p ts))
first_to-cases x p [] = inl refl
first_to-cases x p (used n ∷ ts) = elim (first_to-cases x (p + 32 + n) ts) [
  | inl e ↦ inl e
  | inr (le, lt) ↦ inr (omega arith, lt)
]
first_to-cases x p (unused n ∷ ts) = inr (omega arith, omega (arith, row_end-ge (p + 32 + n) ts))

-- A row depends on the headers in it alone.
pub Row-congr :
    (b b' : Ptr → Block) (x : Ptr) (p e : ℕ) (ts : List Tile)
    → ((a : Ptr) → p ≤ a → a < row_end p ts → b' a ≡ b a)
    → Row b x p e ts
    → Row b' x p e ts
Row-congr b b' x p e [] same l = l
Row-congr b b' x p e (t ∷ ts) same (size, free, next, rest) =
    let at = same p (omega arith) (omega (arith, row_end-ge (after p t) ts)) in
    (
      ap (λ x. x.size) at ∙ size,
      ap block_is_free at ∙ free,
      (λ f. ap (λ x. x.next_free) at ∙ next f),
      Row-congr b b' x (after p t) e ts (λ a le lt. same a (omega arith) lt) rest,
    )

pub Layout-congr :
    (b b' : Ptr → Block) (p e : ℕ) (ts : List Tile)
    → ((a : Ptr) → p ≤ a → b' a ≡ b a)
    → Layout b p e ts
    → Layout b' p e ts
Layout-congr b b' p e ts same l = Row-congr b b' null p e ts (λ a le lt. same a le) l

-- Two rows that meet are one, and one is two.
pub first_to-append :
    (x : Ptr) (p : ℕ) (ts us : List Tile)
    → first_to x p (ts ++ us) ≡ first_to (first_to x (row_end p ts) us) p ts
first_to-append x p [] us = refl
first_to-append x p (used n ∷ ts) us = first_to-append x (p + 32 + n) ts us
first_to-append x p (unused n ∷ ts) us = refl

pub Row-append :
    (b : Ptr → Block) (x : Ptr) (p e : ℕ) (ts us : List Tile)
    → Row b (first_to x (row_end p ts) us) p (row_end p ts) ts
    → Row b x (row_end p ts) e us
    → Row b x p e (ts ++ us)
Row-append b x p e [] us l r = r
Row-append b x p e (t ∷ ts) us (size, free, next, rest) r = (
  size,
  free,
  (λ f. next f ∙ sym (first_to-append x (after p t) ts us)),
  Row-append b x (after p t) e ts us rest r,
)

pub Row-split :
    (b : Ptr → Block) (x : Ptr) (p e : ℕ) (ts us : List Tile)
    → Row b x p e (ts ++ us)
    → Row b (first_to x (row_end p ts) us) p (row_end p ts) ts × Row b x (row_end p ts) e us
Row-split b x p e [] us l = (refl, l)
Row-split b x p e (t ∷ ts) us (size, free, next, rest) =
    let (l, r) = Row-split b x (after p t) e ts us rest in
    ((size, free, (λ f. next f ∙ first_to-append x (after p t) ts us), l), r)

pub live-append : (ts us : List Tile) → live (ts ++ us) ≡ live ts + live us
live-append [] us = omega arith
live-append (used n ∷ ts) us = omega (arith, live-append ts us)
live-append (unused n ∷ ts) us = live-append ts us
