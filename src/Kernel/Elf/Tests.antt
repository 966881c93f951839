-- ===== src/Kernel/Elf/Tests.antt =====
-- An image with one segment, and the theorem of elf.c at it.
use exyde.Common.{ℕ, ◌+◌, ◌≡◌, refl, true, false, some, none, ◌==◌, if◌then◌else◌, fill}
use exyde.Kernel.Pmm.{get_bit, set_bit, alloc_loop, pmm_alloc_pages, pmm_alloc_page, set_range}
use exyde.Kernel.Vmm.{
  Vmm, test_flag, idx_pt, idx_pd, idx_pdpt, idx_pml4, vmm_query, vmm_map, walk_leaf,
  descend_or_alloc, flags_to_pte, pte_to_flags,
}
use exyde.Kernel.Uaccess.{user_range_ok, range_in_user_half, page_loop}
use exyde.Kernel.Elf.{
  LoadOutcome, elf_load, load_loop, load_segment, zero_loop, map_pages, header_ok, segment_ok,
}

-- The entry at 0x8000001000, and 16 bytes there, 8 of them from the file at 120.
abbrev one_segment : ℕ → ℕ
one_segment i =
    if i == 0
    then 0x7F
    else if i == 1
    then 69
    else if i == 2
    then 76
    else if i == 3
    then 70
    else if i == 4
    then 2
    else if i == 5
    then 1
    else if i == 16
    then 2
    else if i == 18
    then 0x3E
    else if i == 25
    then 0x10
    else if i == 28
    then 0x80
    else if i == 32
    then 64
    else if i == 54
    then 56
    else if i == 56
    then 1
    else if i == 64
    then 1
    else if i == 72
    then 120
    else if i == 81
    then 0x10
    else if i == 84
    then 0x80
    else if i == 96
    then 8
    else if i == 104
    then 16
    else 0

-- 16 pages, 8 of them free; page 1 is the root of the space.
abbrev roomy : Vmm
roomy = record {
  tables = λ _ _. 0;
  spaces = λ _. record { pml4 = 0x1000; refcount = 1; is_kernel = false };
  pmm = record {
    used_bitmap = λ _. 0xff;
    resv_bitmap = λ _. 0;
    bitmap_words = 1;
    total_pages = 16;
    free_pages = 8;
    max_paddr = 0x10000;
  };
  kernel_space_ready = true;
}

-- The copies count the bytes they write.
abbrev outcome : LoadOutcome ℕ
outcome = elf_load (λ dst src n m. (none, m + n)) 4 7 9 one_segment 128 500 600 600 roomy 0

loads_the_segment :
    (outcome.image
      ≡ some (record { entry = 0x8000001000; load_base = 0x8000001000; load_size = 0x1000 }))
    × (outcome.memory ≡ 24)
unfolding elf_load load_loop load_segment zero_loop map_pages header_ok segment_ok user_range_ok
    range_in_user_half page_loop vmm_query walk_leaf pte_to_flags vmm_map test_flag idx_pml4
    idx_pdpt idx_pd idx_pt descend_or_alloc pmm_alloc_page pmm_alloc_pages alloc_loop get_bit
    set_range set_bit flags_to_pte fill
loads_the_segment = (refl, refl)
