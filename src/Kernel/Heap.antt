-- ===== src/Kernel/Heap.antt =====
-- The kernel heap of src/kernel/core/heap.c: headers at their addresses, and the free list through
-- them. The loops over the free list have fuel. Which pages can be allocated and mapped is an
-- argument; what memory holds beside the headers is `contents`.
pub mod Layout
pub mod Take
pub mod Alloc
pub mod Links
pub mod Release
pub mod Insert
pub mod Join
pub mod JoinLast
pub mod Free
pub mod Grow
pub mod Malloc
pub mod Pages
mod Tests
use exyde.Common.{
  ℕ, zero, suc, ◌+◌, ◌-◌, ◌*◌, ◌/◌, ◌%◌, ◌^◌, Bool, true, false, not, ◌&&◌, ◌||◌, Option, some,
  none, leb, ltb, ◌==◌, if◌then◌else◌, update, bit_and, bit_or, fill, copy_bytes,
}
use exyde.Kernel.Chain.{Ptr, null}
use exyde.Kernel.Pmm.{page_size}

-- `heap_block_t`.
pub record Block : Type 0 where
  pub size : ℕ
  pub next_free : Ptr
  pub flags : ℕ

pub record Heap : Type 0 where
  pub blocks : Ptr → Block
  pub contents : ℕ → ℕ
  pub start : ℕ
  pub end : ℕ
  pub free_head : Ptr
  pub live_payload : ℕ

abbrev pub heap_align : ℕ
heap_align = 16

abbrev pub heap_min_payload : ℕ
heap_min_payload = 16

abbrev pub heap_header : ℕ
heap_header = 32

abbrev pub blk_free : ℕ
blk_free = 1

-- `KERNEL_HEAP_BASE` and `KERNEL_HEAP_MAX`.
abbrev pub kernel_heap_base : ℕ
kernel_heap_base = 0x40100000

abbrev pub kernel_heap_max : ℕ
kernel_heap_max = 0x50000000

abbrev pub set_block : Heap → Ptr → Block → Heap
set_block h p b = record h { blocks = update h.blocks p b }

unfoldable pub block_is_free : Block → Bool
block_is_free b = not (bit_and b.flags blk_free == 0)

abbrev pub block_end : Heap → Ptr → ℕ
block_end h p = p + heap_header + (h.blocks p).size

-- `flags |= BLK_FREE` and `flags &= ~BLK_FREE`.
abbrev pub set_free : Block → Block
set_free b = record b { flags = bit_or b.flags blk_free }

abbrev pub clear_free : Block → Block
clear_free b = record b { flags = bit_and b.flags (2 ^ 32 - 2) }

-- `if (prev) prev->next_free = x; else heap_free_head = x;`
abbrev pub set_link : Ptr → Ptr → Heap → Heap
set_link prev x h =
    if prev == null
    then record h { free_head = x }
    else set_block h prev (record (h.blocks prev) { next_free = x })

-- `while (cur && cur < blk) { prev = cur; cur = cur->next_free; }`
unfoldable pub place_loop : ℕ → Heap → Ptr → Ptr → Ptr → Ptr × Ptr
place_loop zero h blk prev cur = (prev, cur)
place_loop (suc fuel) h blk prev cur =
    let rest = place_loop fuel h blk cur (h.blocks cur).next_free in
    if not (cur == null) && ltb cur blk then rest else (prev, cur)

abbrev pub merge_next : Ptr → Ptr → Heap → Heap
merge_next blk cur h =
    let b = h.blocks blk in
    let c = h.blocks cur in
    if not (cur == null) && (block_end h blk == cur)
    then set_block h blk
        (record b { size = b.size + (heap_header + c.size); next_free = c.next_free })
    else h

abbrev pub merge_prev : Ptr → Ptr → Heap → Heap
merge_prev prev blk h =
    let p = h.blocks prev in
    let b = h.blocks blk in
    if not (prev == null) && (block_end h prev == blk)
    then set_block h prev
        (record p { size = p.size + (heap_header + b.size); next_free = b.next_free })
    else h

-- `free_list_insert` behind its loop.
abbrev pub insert_at : Ptr → Ptr × Ptr → Heap → Heap
insert_at blk (prev, cur) h =
    let h₁ = set_block h blk (record (h.blocks blk) { next_free = cur }) in
    merge_prev prev blk (merge_next blk cur (set_link prev blk h₁))

unfoldable pub free_list_insert : ℕ → Ptr → Heap → Heap
free_list_insert fuel blk h =
    let h₁ = set_block h blk (record (set_free (h.blocks blk)) { next_free = null }) in
    insert_at blk (place_loop fuel h₁ blk null h₁.free_head) h₁

-- The block `cur` fits: it is split if the rest is worth it, or taken whole.
abbrev pub split_block : Ptr → Ptr → ℕ → Heap → Heap
split_block prev cur need h =
    let c = h.blocks cur in
    let remain = c.size - need in
    let rem = cur + heap_header + need in
    if leb (heap_header + heap_min_payload) remain
    then (let h₁ =
          set_block h rem
            (record { size = remain - heap_header; next_free = c.next_free; flags = blk_free }) in
        set_link prev rem (set_block h₁ cur (record (h₁.blocks cur) { size = need })))
    else set_link prev c.next_free h

abbrev pub take_block : Ptr → Ptr → ℕ → Heap → Heap
take_block prev cur need h =
    let h₁ = split_block prev cur need h in
    let h₂ = set_block h₁ cur (record (clear_free (h₁.blocks cur)) { next_free = null }) in
    record h₂ { live_payload = h₂.live_payload + (h₂.blocks cur).size }

-- `alloc_from_list` from `cur` on: the address, or NULL.
unfoldable pub fit_loop : ℕ → ℕ → Ptr → Ptr → Heap → Ptr × Heap
fit_loop zero need prev cur h = (null, h)
fit_loop (suc fuel) need prev cur h =
    let rest = fit_loop fuel need cur (h.blocks cur).next_free h in
    if cur == null
    then (null, h)
    else if leb need (h.blocks cur).size
    then (cur + heap_header, take_block prev cur need h)
    else rest

abbrev pub alloc_from_list : ℕ → ℕ → Heap → Ptr × Heap
alloc_from_list fuel need h = fit_loop fuel need null h.free_head h

-- The loop of `heap_grow` with `k` rounds left: how many pages it mapped. `Kernel.Heap.Pages` has it
-- with the calls of pmm.c and vmm.c.
unfoldable pub map_loop : (ℕ → Bool) → ℕ → ℕ → ℕ → ℕ
map_loop map_page base i zero = i
map_loop map_page base i (suc k) =
    let rest = map_loop map_page base (suc i) k in
    let va = base + i * page_size in
    if ltb kernel_heap_max (va + page_size) then i else if not (map_page va) then i else rest

-- The new pages as one block at the old end.
abbrev pub add_pages : ℕ → ℕ → Heap → Bool × Heap
add_pages fuel mapped h =
    let new_bytes = mapped * page_size in
    let blk : Block = record { size = new_bytes - heap_header; next_free = null; flags = 0 } in
    if mapped == 0 then (false, h) else (
      true,
      free_list_insert fuel h.end (set_block (record h { end = h.end + new_bytes }) h.end blk),
    )

unfoldable pub heap_grow : ℕ → (ℕ → Bool) → ℕ → Heap → Bool × Heap
heap_grow fuel map_page need_payload h =
    let need_bytes = (need_payload + heap_header) % 2 ^ 64 in
    let pages = (need_bytes + page_size - 1) % 2 ^ 64 / page_size in
    add_pages fuel (map_loop map_page h.end 0 (if pages == 0 then 1 else pages)) h

unfoldable pub heap_init : Heap → Heap
heap_init h = record h {
  start = kernel_heap_base;
  end = kernel_heap_base;
  free_head = null;
  live_payload = 0;
}

unfoldable pub round_up : ℕ → ℕ
round_up n = bit_and ((n + heap_align - 1) % 2 ^ 64) (2 ^ 64 - heap_align)

abbrev pub need_of : ℕ → ℕ
need_of size =
    let need = round_up size in if ltb need heap_min_payload then heap_min_payload else need

abbrev pub grow_and_alloc : ℕ → ℕ → Bool × Heap → Ptr × Heap
grow_and_alloc fuel need (false, h) = (null, h)
grow_and_alloc fuel need (true, h) = alloc_from_list fuel need h

abbrev pub or_grow : ℕ → (ℕ → Bool) → ℕ → Ptr × Heap → Ptr × Heap
or_grow fuel map_page need (p, h) =
    if not (p == null) then (p, h) else grow_and_alloc fuel need (heap_grow fuel map_page need h)

unfoldable pub exy_malloc : ℕ → (ℕ → Bool) → ℕ → Heap → Ptr × Heap
exy_malloc fuel map_page size h =
    let need = need_of size in
    if size == 0 then (null, h) else or_grow fuel map_page need (alloc_from_list fuel need h)

abbrev pub zeroed : ℕ → Ptr × Heap → Ptr × Heap
zeroed size (p, h) =
    if p == null then (null, h) else (p, record h { contents = fill size p 0 h.contents })

unfoldable pub exy_zalloc : ℕ → (ℕ → Bool) → ℕ → Heap → Ptr × Heap
exy_zalloc fuel map_page size h = zeroed size (exy_malloc fuel map_page size h)

-- none is a panic.
unfoldable pub exy_free : ℕ → Ptr → Heap → Option Heap
exy_free fuel a h =
    let blk = a - heap_header in
    let b = h.blocks blk in
    if a == null
    then some h
    else if ltb a h.start || leb h.end a
    then none
    else if block_is_free b
    then none
    else some (free_list_insert fuel blk (record h { live_payload = h.live_payload - b.size }))

abbrev pub after_free : Ptr → Option Heap → Option (Ptr × Heap)
after_free p none = none
after_free p (some h) = some (p, h)

abbrev pub moved_to : ℕ → Ptr → ℕ → Ptr × Heap → Option (Ptr × Heap)
moved_to fuel a old_size (np, h) =
    if np == null
    then some (null, h)
    else after_free np
        (exy_free fuel a (record h { contents = copy_bytes h.contents np h.contents a old_size }))

unfoldable pub exy_realloc : ℕ → (ℕ → Bool) → Ptr → ℕ → Heap → Option (Ptr × Heap)
exy_realloc fuel map_page a new_size h =
    let b = h.blocks (a - heap_header) in
    if a == null
    then some (exy_malloc fuel map_page new_size h)
    else if new_size == 0
    then after_free null (exy_free fuel a h)
    else if ltb a h.start || leb h.end a
    then none
    else if block_is_free b
    then none
    else if leb (need_of new_size) b.size
    then some (a, h)
    else moved_to fuel a b.size (exy_malloc fuel map_page new_size h)

-- `heap_free_bytes` from `b` on.
unfoldable pub sum_loop : ℕ → Heap → Ptr → ℕ
sum_loop zero h b = 0
sum_loop (suc fuel) h b =
    let rest = sum_loop fuel h (h.blocks b).next_free in
    if b == null then 0 else (h.blocks b).size + rest

abbrev pub heap_free_bytes : ℕ → Heap → ℕ
heap_free_bytes fuel h = sum_loop fuel h h.free_head

unfoldable pub heap_reserve : ℕ → (ℕ → Bool) → ℕ → Heap → Bool × Heap
heap_reserve fuel map_page bytes h =
    let have = heap_free_bytes fuel h in
    if bytes == 0
    then (true, h)
    else if leb bytes have
    then (true, h)
    else heap_grow fuel map_page (bytes - have) h

unfoldable pub heap_used_bytes : Heap → ℕ
heap_used_bytes h = h.live_payload

unfoldable pub heap_total_bytes : Heap → ℕ
heap_total_bytes h = h.end - h.start
