-- ===== src/Kernel/Memmap.antt =====
-- The physical memory map of src/kernel/core/memmap.c.
use exyde.Common.{
  ℕ, zero, suc, ◌+◌, ◌%◌, ◌^◌, Bool, true, false, Option, none, some, leb, ltb, ◌==◌, if◌then◌else◌,
  update,
}

abbrev pub memory_usable : ℕ
memory_usable = 1

abbrev pub memory_reserved : ℕ
memory_reserved = 2

abbrev pub memmap_max_regions : ℕ
memmap_max_regions = 128

-- `memory_region_t`, less its padding; `type` is the Multiboot2 type.
pub record MemoryRegion : Type 0 where
  pub base : ℕ
  pub size : ℕ
  pub type : ℕ

-- The two static variables.
pub record Memmap : Type 0 where
  pub regions : ℕ → MemoryRegion
  pub region_count : ℕ

unfoldable pub memmap_reset : Memmap → Memmap
memmap_reset m = record m { region_count = 0 }

unfoldable pub memmap_add : Memmap → ℕ → ℕ → ℕ → Bool × Memmap
memmap_add m base size type =
    if size == 0
    then (false, m)
    else if leb memmap_max_regions m.region_count
    then (false, m)
    else (
      true,
      record {
        regions =
            update m.regions m.region_count (record { base = base; size = size; type = type });
        region_count = m.region_count + 1;
      },
    )

unfoldable pub memmap_reserve : Memmap → ℕ → ℕ → Bool × Memmap
unfolding memmap_add
memmap_reserve m base size = memmap_add m base size memory_reserved

unfoldable pub memmap_get : Memmap → ℕ → Option MemoryRegion
memmap_get m index = if leb m.region_count index then none else some (m.regions index)

unfoldable pub max_paddr_loop : ℕ → ℕ → Memmap → ℕ → ℕ
max_paddr_loop zero i m top = top
max_paddr_loop (suc n) i m top =
    let end = ((m.regions i).base + (m.regions i).size) % 2 ^ 64 in
    max_paddr_loop n (i + 1) m (if ltb top end then end else top)

unfoldable pub memmap_max_paddr : Memmap → ℕ
memmap_max_paddr m = max_paddr_loop m.region_count 0 m 0
