-- ===== src/Kernel/Vmm/Sample.antt =====
-- An address space with its root table alone, and the one with a page mapped in it.
use exyde.Common.{
  ℕ, ◌≡◌, refl, ap, Bool, true, false, not, Option, some, none, ◌==◌, if◌then◌else◌, update, arith,
  fill, Bool-cases, inl, inr, total, every, every-get, ◌||◌, ◌/◌,
}
use exyde.Kernel.Pmm.{
  used_get, get_bit, set_bit, resv_get, alloc_loop, pmm_alloc_pages, pmm_alloc_page, set_range,
}
use exyde.Kernel.Pmm.Range.{free_below}
use exyde.Kernel.Pmm.Alloc.{IsValid}
use exyde.Kernel.Vmm.{
  Vmm, test_flag, idx_pt, idx_pd, idx_pdpt, idx_pml4, vmm_query, vmm_map, walk_leaf,
  descend_or_alloc, flags_to_pte,
}
use exyde.Kernel.Vmm.Walk.{IsPaged}
use exyde.Kernel.Vmm.Mapping.{IsMap}
use exyde.Kernel.Vmm.Map.{map-Mapped}

-- Of 8 pages, 4 to 6 are free; page 1 is the root of the space at 500.
abbrev pub bare : Vmm
bare = record {
  tables = λ _ _. 0;
  spaces = λ _. record { pml4 = 0x1000; refcount = 1; is_kernel = false };
  pmm = record {
    used_bitmap = λ _. 0x8f;
    resv_bitmap = λ _. 0x0c;
    bitmap_words = 1;
    total_pages = 8;
    free_pages = 3;
    max_paddr = 0x8000;
  };
  kernel_space_ready = true;
}

abbrev pub nothing : ℕ → Option (ℕ × ℕ)
nothing _ = none

pub bare-IsValid : IsValid bare.pmm
unfolding free_below total get_bit every
bare-IsValid = record {
  counted = refl;
  reserved = λ q lt h.
      let checked : (not (resv_get bare.pmm q) || used_get bare.pmm q) ≡ true =
        every-get 8 (λ q. not (resv_get bare.pmm q) || used_get bare.pmm q) refl q lt in
      ground arith;
  tracked = refl;
  small = omega arith;
}

bare-IsPaged : IsPaged (λ p. if p == 0x1000 then 4 else 0) (λ _. (0, 0)) bare
unfolding test_flag get_bit
bare-IsPaged = record {
  typed = λ p i k c lt level e. cc;
  kept = λ p pos. elim (Bool-cases (p == 0x1000)) [
    | inl here ↦
        let e : p ≡ 0x1000 = ground (arith, here) in ap (λ q. used_get bare.pmm (q / 4096)) e
    | inr off ↦ absurd (ground (arith, off, pos))
  ];
  nonnull = refl;
  valid = bare-IsValid;
  bounded = omega arith;
}

pub bare-IsMap : IsMap 500 nothing bare
unfolding vmm_query walk_leaf test_flag
bare-IsMap = record {
  lvl = λ p. if p == 0x1000 then 4 else 0;
  parent = λ _. (0, 0);
  paged = bare-IsPaged;
  level = refl;
  reads = λ vb even small. rw even refl;
}

-- The three tables take the three free pages.
abbrev pub mapped : Bool × Vmm
mapped = vmm_map 500 0x8000201000 0x7000 7 bare

pub mapped-IsMap : IsMap 500 (update nothing 0x8000201000 (some (0x7000, 7))) mapped.1
unfolding vmm_map test_flag idx_pml4 idx_pdpt idx_pd idx_pt descend_or_alloc pmm_alloc_page
    pmm_alloc_pages alloc_loop get_bit set_range set_bit flags_to_pte fill
mapped-IsMap =
    (map-Mapped 500 nothing bare 0x8000201000 0x7000 7 bare-IsMap (omega arith) (omega arith)).1
