-- ===== src/Kernel/Pmm.antt =====
-- The physical page allocator of src/kernel/core/pmm.c: two bitmaps of 64-bit words, used and
-- reserved, and the count of free pages. A `size_t` or `paddr_t` sum is taken modulo 2 ^ 64.
pub mod Bitmap
pub mod Range
pub mod Alloc
pub mod Free
pub mod Pass
pub mod Init
mod Tests
use exyde.Common.{
  ℕ, zero, suc, ◌+◌, ◌-◌, ◌*◌, ◌/◌, ◌%◌, ◌^◌, Bool, true, false, not, Option, none, some, bit_and,
  bit_or, leb, ltb, ◌==◌, if◌then◌else◌, update, fill,
}
use exyde.Kernel.Memmap.{Memmap, memory_usable}

abbrev pub page_size : ℕ
page_size = 4096

abbrev pub pmm_max_tracked_bytes : ℕ
pmm_max_tracked_bytes = 1024 * 1024 * 1024

abbrev pub pmm_bitmap_max_bytes : ℕ
pmm_bitmap_max_bytes = pmm_max_tracked_bytes / page_size / 8

-- The static variables.
pub record Pmm : Type 0 where
  pub used_bitmap : ℕ → ℕ
  pub resv_bitmap : ℕ → ℕ
  pub bitmap_words : ℕ
  pub total_pages : ℕ
  pub free_pages : ℕ
  pub max_paddr : ℕ

-- `bitmap[page / 64] |= (u64)1 << (page % 64)`, and the same with `&= ~`.
unfoldable pub set_bit : (ℕ → ℕ) → ℕ → ℕ → ℕ
set_bit bitmap page = update bitmap (page / 64) (bit_or (bitmap (page / 64)) (2 ^ (page % 64)))

unfoldable pub clear_bit : (ℕ → ℕ) → ℕ → ℕ → ℕ
clear_bit bitmap page =
    update bitmap (page / 64) (bit_and (bitmap (page / 64)) (2 ^ 64 - 1 - 2 ^ (page % 64)))

-- `(bitmap[page / 64] >> (page % 64)) & 1`.
unfoldable pub get_bit : (ℕ → ℕ) → ℕ → Bool
get_bit bitmap page = not (bit_and (bitmap (page / 64) / 2 ^ (page % 64)) 1 == 0)

abbrev pub used_set : Pmm → ℕ → Pmm
used_set p page = record p { used_bitmap = set_bit p.used_bitmap page }

abbrev pub used_clear : Pmm → ℕ → Pmm
used_clear p page = record p { used_bitmap = clear_bit p.used_bitmap page }

abbrev pub used_get : Pmm → ℕ → Bool
used_get p page = get_bit p.used_bitmap page

abbrev pub resv_set : Pmm → ℕ → Pmm
resv_set p page = record p { resv_bitmap = set_bit p.resv_bitmap page }

abbrev pub resv_get : Pmm → ℕ → Bool
resv_get p page = get_bit p.resv_bitmap page

-- `a & ~((paddr_t)PAGE_SIZE - 1)`.
unfoldable pub page_down : ℕ → ℕ
page_down a = bit_and a (2 ^ 64 - page_size)

-- `for (a = start; a < end; a += PAGE_SIZE)`, on fuel.
unfoldable pub usable_loop : ℕ → ℕ → ℕ → Pmm → Pmm
usable_loop zero a end p = p
usable_loop (suc n) a end p =
    let rest = usable_loop n ((a + page_size) % 2 ^ 64) end (used_clear p (a / page_size)) in
    if ltb a end then rest else p

unfoldable pub mark_usable : ℕ → ℕ → Pmm → Pmm
mark_usable base size p =
    let start = page_down ((base + page_size - 1) % 2 ^ 64) in
    let top = page_down ((base + size) % 2 ^ 64) in
    let end = if ltb p.max_paddr top then p.max_paddr else top in
    if leb end start then p else usable_loop (end / page_size) start end p

unfoldable pub reserved_loop : ℕ → ℕ → ℕ → Pmm → Pmm
reserved_loop zero a end p = p
reserved_loop (suc n) a end p =
    let page = a / page_size in
    let rest = reserved_loop n ((a + page_size) % 2 ^ 64) end (resv_set (used_set p page) page) in
    if ltb a end then rest else p

unfoldable pub mark_reserved : ℕ → ℕ → Pmm → Pmm
mark_reserved base size p =
    let start = page_down base in
    let top = page_down ((base + size + page_size - 1) % 2 ^ 64) in
    let end = if ltb p.max_paddr top then p.max_paddr else top in
    if leb end start then p else reserved_loop (end / page_size) start end p

unfoldable pub top_loop : ℕ → ℕ → Memmap → ℕ → ℕ
top_loop zero i m top = top
top_loop (suc n) i m top =
    let r = m.regions i in
    let e = (r.base + r.size) % 2 ^ 64 in
    top_loop n (i + 1) m
      (if not (r.type == memory_usable) then top else if ltb top e then e else top)

-- Highest end of any usable region, rounded up to a page.
unfoldable pub usable_top : Memmap → ℕ
usable_top m =
    let top = top_loop m.region_count 0 m 0 in
    if top == 0 then 0 else page_down ((top + page_size - 1) % 2 ^ 64)

-- The two passes of `pmm_init` over the memory map.
unfoldable pub usable_pass : ℕ → ℕ → Memmap → Pmm → Pmm
usable_pass zero i m p = p
usable_pass (suc n) i m p =
    let r = m.regions i in
    usable_pass n (i + 1) m (if r.type == memory_usable then mark_usable r.base r.size p else p)

unfoldable pub reserved_pass : ℕ → ℕ → Memmap → Pmm → Pmm
reserved_pass zero i m p = p
reserved_pass (suc n) i m p =
    let r = m.regions i in
    reserved_pass n (i + 1) m
      (if not (r.type == memory_usable) then mark_reserved r.base r.size p else p)

unfoldable pub count_loop : ℕ → ℕ → Pmm → ℕ → ℕ
count_loop zero i p free = free
count_loop (suc n) i p free = count_loop n (i + 1) p (if not (used_get p i) then free + 1 else free)

-- `max_paddr` as `pmm_init` sets it.
abbrev pub tracked_top : Memmap → ℕ
tracked_top m =
    let top = usable_top m in if ltb pmm_max_tracked_bytes top then pmm_max_tracked_bytes else top

abbrev pub words_for : ℕ → ℕ
words_for total_pages = (total_pages + 64 - 1) / 64

-- The sizes are set, every tracked page is used and none reserved.
unfoldable pub cleared : ℕ → Pmm → Pmm
cleared top p = record {
  used_bitmap = fill (words_for (top / page_size)) 0 (2 ^ 64 - 1) p.used_bitmap;
  resv_bitmap = fill (words_for (top / page_size)) 0 0 p.resv_bitmap;
  bitmap_words = words_for (top / page_size);
  total_pages = top / page_size;
  free_pages = 0;
  max_paddr = top;
}

abbrev pub marked : Memmap → Pmm → Pmm
marked m p =
    reserved_pass m.region_count 0 m (usable_pass m.region_count 0 m (cleared (tracked_top m) p))

-- `none` is a panic: no usable memory, or a bitmap that is too small.
unfoldable pub pmm_init : Memmap → Pmm → Option Pmm
pmm_init m p =
    if usable_top m == 0
    then none
    else if ltb pmm_bitmap_max_bytes (words_for (tracked_top m / page_size) * 8)
    then none
    else some (record (marked m p) {
      free_pages = count_loop (tracked_top m / page_size) 0 (marked m p) 0;
    })

-- `for (j = 0; j < count; ++j) used_set(start + j)`, and the same with `used_clear`.
unfoldable pub set_range : ℕ → ℕ → Pmm → Pmm
set_range zero page p = p
set_range (suc n) page p = set_range n (page + 1) (used_set p page)

unfoldable pub clear_range : ℕ → ℕ → Pmm → Pmm
clear_range zero page p = p
clear_range (suc n) page p = clear_range n (page + 1) (used_clear p page)

-- The scan of `pmm_alloc_pages`, with the pages left, at page `i`, `run` free pages behind it.
unfoldable pub alloc_loop : ℕ → ℕ → ℕ → ℕ → Pmm → ℕ × Pmm
alloc_loop zero i run count p = (0, p)
alloc_loop (suc n) i run count p =
    let skip = alloc_loop n (i + 1) 0 count p in
    let next = alloc_loop n (i + 1) (run + 1) count p in
    if used_get p i
    then skip
    else if run + 1 == count
    then (let start = i + 1 - count in
        let p' = set_range count start p in
        (start * page_size % 2 ^ 64, record p' { free_pages = p'.free_pages - count }))
    else next

unfoldable pub pmm_alloc_pages : Pmm → ℕ → ℕ × Pmm
pmm_alloc_pages p count =
    if count == 0
    then (0, p)
    else if ltb p.free_pages count
    then (0, p)
    else alloc_loop p.total_pages 0 0 count p

unfoldable pub pmm_alloc_page : Pmm → ℕ × Pmm
unfolding pmm_alloc_pages
pmm_alloc_page p = pmm_alloc_pages p 1

-- The validation loop of `pmm_free_pages`.
unfoldable pub may_free : ℕ → ℕ → Pmm → Bool
may_free zero page p = true
may_free (suc n) page p =
    let rest = may_free n (page + 1) p in
    if resv_get p page then false else if not (used_get p page) then false else rest

unfoldable pub pmm_free_pages : Pmm → ℕ → ℕ → Bool × Pmm
pmm_free_pages p page count =
    if count == 0
    then (false, p)
    else if not (bit_and page (page_size - 1) == 0)
    then (false, p)
    else if leb p.max_paddr page
    then (false, p)
    else if ltb p.max_paddr ((page + count * page_size % 2 ^ 64) % 2 ^ 64)
    then (false, p)
    else let start = page / page_size in
      if not (may_free count start p)
      then (false, p)
      else let p' = clear_range count start p in
        (true, record p' { free_pages = (p'.free_pages + count) % 2 ^ 64 })

unfoldable pub pmm_free_page : Pmm → ℕ → Bool × Pmm
unfolding pmm_free_pages
pmm_free_page p page = pmm_free_pages p page 1

unfoldable pub pmm_is_allocated : Pmm → ℕ → Bool
pmm_is_allocated p page =
    if not (bit_and page (page_size - 1) == 0)
    then false
    else if leb p.max_paddr page
    then false
    else used_get p (page / page_size)
