-- ===== src/Kernel/Heap/Links.antt =====
-- What the writes to the free list leave of the heap.
use exyde.Common.{
  ℕ, ◌≡◌, refl, ap, ◌∙◌, not, ◌&&◌, ◌==◌, if◌then◌else◌, arith, Bool-cases, inl, inr,
}
use exyde.Kernel.Chain.{Ptr, null}
use exyde.Kernel.Heap.{
  Heap, set_free, set_link, place_loop, set_block, merge_next, merge_prev, insert_at,
  free_list_insert, block_end,
}

-- The headers behind `set_link`.
pub set_link-block :
    (prev y : Ptr) (h : Heap) (a : Ptr)
    → (set_link prev y h).blocks a ≡ (
        if not (prev == null) && (prev == a)
        then record (h.blocks a) { next_free = y }
        else h.blocks a)
set_link-block prev y h a = elim (Bool-cases (prev == null)) [
  | inl z ↦ rw z refl
  | inr off ↦ elim (Bool-cases (prev == a)) [
    | inl at ↦
        let e : prev ≡ a = ground arith in
        rw (off, at) (ap (λ q. record (h.blocks q) { next_free = y }) e)
    | inr z ↦ rw (off, z) refl
  ]
]

pub set_link-fields :
    (prev y : Ptr) (h : Heap)
    → ((set_link prev y h).start ≡ h.start)
      × ((set_link prev y h).end ≡ h.end)
      × ((set_link prev y h).live_payload ≡ h.live_payload)
      × ((set_link prev y h).free_head ≡ (if prev == null then y else h.free_head))
set_link-fields prev y h = elim (Bool-cases (prev == null)) [
  | inl z ↦ rw z (refl, refl, refl, refl)
  | inr z ↦ rw z (refl, refl, refl, refl)
]

-- The heap starts where it did.
pub merge_next-start : (p q : Ptr) (h : Heap) → (merge_next p q h).start ≡ h.start
merge_next-start p q h = elim (Bool-cases (not (q == null) && (block_end h p == q))) [
  | inl z ↦ rw z refl
  | inr z ↦ rw z refl
]

merge_prev-start : (p q : Ptr) (h : Heap) → (merge_prev p q h).start ≡ h.start
merge_prev-start p q h = elim (Bool-cases (not (p == null) && (block_end h p == q))) [
  | inl z ↦ rw z refl
  | inr z ↦ rw z refl
]

insert_at-start : (blk : Ptr) (r : Ptr × Ptr) (h : Heap) → (insert_at blk r h).start ≡ h.start
insert_at-start blk (prev, cur) h =
    let h₁ = set_block h blk (record (h.blocks blk) { next_free = cur }) in
    merge_prev-start prev blk (merge_next blk cur (set_link prev blk h₁))
    ∙ merge_next-start blk cur (set_link prev blk h₁)
    ∙ (set_link-fields prev blk h₁).0

pub free_list_insert-start :
    (fuel : ℕ) (blk : Ptr) (h : Heap) → (free_list_insert fuel blk h).start ≡ h.start
unfolding free_list_insert
free_list_insert-start fuel blk h =
    let h₁ = set_block h blk (record (set_free (h.blocks blk)) { next_free = null }) in
    insert_at-start blk (place_loop fuel h₁ blk null h₁.free_head) h₁
