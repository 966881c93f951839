-- ===== src/Kernel/Pmm/Tests.antt =====
-- A small memory map and the allocator that it gives, and the theorems of pmm.c at them.
use exyde.Common.{
  ℕ, ◌*◌, ◌≡◌, ◌≢◌, ◌<◌, ◌↔◌, refl, true, false, some, arith, update, total, every, every-get, not,
  ◌||◌, fill,
}
use mathlib.Core.Option
use exyde.Kernel.Memmap.{Memmap}
use exyde.Kernel.Pmm.{
  Pmm, used_get, resv_get, get_bit, set_bit, clear_bit, page_down, usable_loop, mark_usable,
  reserved_loop, mark_reserved, top_loop, usable_top, usable_pass, reserved_pass, count_loop,
  cleared, pmm_init, set_range, alloc_loop, pmm_alloc_pages, may_free, pmm_free_pages,
}
use exyde.Kernel.Pmm.Range.{free_below}
use exyde.Kernel.Pmm.Alloc.{IsValid, Allocated, alloc-lowest_run}
use exyde.Kernel.Pmm.Free.{MayFree, free_iff, free-alloc}
use exyde.Kernel.Pmm.Pass.{AllSmall}
use exyde.Kernel.Pmm.Init.{IsTop, Read, init-Read}

-- Six usable pages from 0x1800 on, the last one cut, and a reserved part over two of them.
abbrev map : Memmap
map = record {
  regions =
      update (λ _. record { base = 0x1800; size = 0x6000; type = 1 }) 1
        (record { base = 0x2fff; size = 0x1001; type = 2 });
  region_count = 2;
}

abbrev blank : Pmm
blank = record {
  used_bitmap = λ _. 0;
  resv_bitmap = λ _. 0;
  bitmap_words = 0;
  total_pages = 0;
  free_pages = 0;
  max_paddr = 0;
}

-- Of 8 pages, 4 to 6 are free: 2 and 3 are reserved, 1 and 7 are not whole.
abbrev small : Pmm
small = record {
  used_bitmap = λ _. 0x8f;
  resv_bitmap = λ _. 0x0c;
  bitmap_words = 1;
  total_pages = 8;
  free_pages = 3;
  max_paddr = 0x8000;
}

init_reads_map :
    Option.map {B = ℕ × ℕ × ℕ}
      (λ (p : Pmm). (p.total_pages, p.free_pages, p.resv_bitmap 0))
      (pmm_init map blank)
    ≡ some (8, 3, 0x0c)
unfolding pmm_init usable_top top_loop page_down usable_pass reserved_pass mark_usable mark_reserved
    usable_loop reserved_loop cleared fill count_loop get_bit set_bit clear_bit
init_reads_map = refl

alloc_takes_lowest : (pmm_alloc_pages small 2).0 ≡ 4 * 4096
unfolding pmm_alloc_pages alloc_loop get_bit set_range set_bit
alloc_takes_lowest = refl

alloc_no_run : (pmm_alloc_pages small 4).0 ≡ 0
unfolding pmm_alloc_pages
alloc_no_run = refl

free_reserved : (pmm_free_pages small 0x2000 1).0 ≡ false
unfolding pmm_free_pages may_free get_bit
free_reserved = refl

small-IsValid : IsValid small
unfolding free_below total get_bit every
small-IsValid = record {
  counted = refl;
  reserved = λ q lt h.
      let checked : (not (resv_get small q) || used_get small q) ≡ true =
        every-get 8 (λ q. not (resv_get small q) || used_get small q) refl q lt in
      ground arith;
  tracked = refl;
  small = omega arith;
}

alloc-lowest_run_example : Allocated small 2 (pmm_alloc_pages small 2)
alloc-lowest_run_example = alloc-lowest_run small-IsValid 2 (omega arith)

free_iff_example : ((pmm_free_pages small 0x7000 1).0 ≡ true) ↔ MayFree small 0x7000 1
free_iff_example = free_iff small-IsValid 0x7000 1 (omega arith) (omega arith)

alloc_small : (pmm_alloc_pages small 2).0 ≢ 0
unfolding pmm_alloc_pages alloc_loop get_bit
alloc_small = omega arith

free-alloc_example :
    let (page, p') = pmm_alloc_pages small 2 in
    let (done, p'') = pmm_free_pages p' page 2 in
    (done ≡ true) × (p''.free_pages ≡ 3) × ((q : ℕ) → used_get p'' q ≡ used_get small q)
free-alloc_example = free-alloc small-IsValid 2 (omega arith) alloc_small

map-AllSmall : AllSmall map
map-AllSmall i lt = ground arith

init-Read_example :
    (p' : Pmm) × (pmm_init map blank ≡ some p')
    × IsValid p'
    × IsTop map p'.max_paddr
    × ((q : ℕ) → q * 4096 < p'.max_paddr → Read map p' q)
init-Read_example = init-Read map blank map-AllSmall 0 (omega arith) refl (omega arith)

-- The end of the first region is above that of the second.
two_usable : usable_top (record map { region_count = 3 }) ≡ 0x8000
unfolding usable_top top_loop page_down
two_usable = refl
