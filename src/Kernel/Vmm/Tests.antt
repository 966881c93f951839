-- ===== src/Kernel/Vmm/Tests.antt =====
-- The theorems of vmm.c at a small address space.
use exyde.Common.{◌≡◌, refl, true, some, update, arith, fill}
use exyde.Kernel.Pmm.{get_bit, set_bit, alloc_loop, pmm_alloc_pages, pmm_alloc_page, set_range}
use exyde.Kernel.Vmm.{
  test_flag, idx_pt, idx_pd, idx_pdpt, idx_pml4, vmm_query, vmm_map, vmm_unmap, walk_leaf,
  descend_or_alloc, flags_to_pte, pte_to_flags,
}
use exyde.Kernel.Vmm.Map.{map-Mapped, map_succeeds, Mapped}
use exyde.Kernel.Vmm.Boot.{booted, booted-IsMap, booted-IsClear}
use exyde.Kernel.Vmm.Unmap.{unmap-Unmapped, Unmapped}
use exyde.Kernel.Vmm.Sample.{bare, nothing, mapped, bare-IsMap, mapped-IsMap}

maps_once : mapped.0 ≡ true
unfolding vmm_map test_flag idx_pml4 idx_pdpt idx_pd idx_pt descend_or_alloc pmm_alloc_page
    pmm_alloc_pages alloc_loop get_bit set_range set_bit flags_to_pte fill
maps_once = refl

reads_back : vmm_query 500 0x8000201000 mapped.1 ≡ some (0x7000, 7)
unfolding vmm_map vmm_query walk_leaf pte_to_flags test_flag idx_pml4 idx_pdpt idx_pd idx_pt
    descend_or_alloc pmm_alloc_page pmm_alloc_pages alloc_loop get_bit set_range set_bit
    flags_to_pte fill
reads_back = refl

map-Mapped_example : Mapped 500 nothing 0x8000201000 (0x7000, 7) mapped
map-Mapped_example =
    map-Mapped 500 nothing bare 0x8000201000 0x7000 7 bare-IsMap (omega arith) (omega arith)

unmap-Unmapped_example :
    Unmapped 500
      (update nothing 0x8000201000 (some (0x7000, 7)))
      0x8000201000
      mapped.1
      (vmm_unmap 500 0x8000201000 mapped.1)
unfolding vmm_map test_flag idx_pml4 idx_pdpt idx_pd idx_pt descend_or_alloc pmm_alloc_page
    pmm_alloc_pages alloc_loop get_bit set_range set_bit flags_to_pte fill
unmap-Unmapped_example =
    unmap-Unmapped 500 (update nothing 0x8000201000 (some (0x7000, 7))) mapped.1 0x8000201000
      mapped-IsMap refl refl (omega arith) (omega arith)

-- With the huge pages of the boot tables under another entry of the root.
map_succeeds_example : (vmm_map 500 0x8000201000 0x7000 7 booted).0 ≡ true
unfolding test_flag get_bit
map_succeeds_example =
    map_succeeds 500 nothing booted 0x8000201000 0x7000 7 booted-IsMap (omega arith) (omega arith)
      refl refl refl (omega arith) refl refl
      (record { pages = omega arith; locked = refl; clear = booted-IsClear })
