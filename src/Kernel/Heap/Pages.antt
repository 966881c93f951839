-- ===== src/Kernel/Heap/Pages.antt =====
-- The loop of `heap_grow` over the page allocator and the page tables, and the answers with which
-- `map_loop` counts the same pages.
use exyde.Common.{
  ℕ, zero, suc, ◌+◌, ◌-◌, ◌%◌, ◌^◌, ◌/◌, ◌*◌, ◌≤◌, ◌≡◌, refl, ap, ◌∙◌, sym, Bool, true, false, not,
  ltb, ◌==◌, if◌then◌else◌, arith, Bool-cases, inl, inr, bit_or,
}
use exyde.Kernel.Chain.{Ptr}
use exyde.Kernel.Pmm.{page_size, pmm_alloc_page, pmm_free_page}
use exyde.Kernel.Vmm.{Vmm, vmm_map, vm_present, vm_write}
use exyde.Kernel.Vmm.Spaces.{vmm_kernel_space}
use exyde.Kernel.Heap.{Heap, kernel_heap_max, map_loop, heap_grow, add_pages}

-- The page is given back if it cannot be mapped.
abbrev give_back : ℕ → Bool × Vmm → Bool × Vmm
give_back pa (true, v) = (true, v)
give_back pa (false, v) = (false, record v { pmm = (pmm_free_page v.pmm pa).1 })

module _ (kernel_space boot_pml4 : Ptr) where
  abbrev map_new : ℕ → ℕ → Vmm → Bool × Vmm
  map_new va pa v =
      let (space, v₁) = vmm_kernel_space kernel_space boot_pml4 v in
      if pa == 0
      then (false, v)
      else give_back pa (vmm_map space va pa (bit_or vm_present vm_write) v₁)

  -- A round of the loop: whether a page is mapped at the address.
  abbrev pub heap_map_one : ℕ → Vmm → Bool × Vmm
  heap_map_one va v = let (pa, pmm) = pmm_alloc_page v.pmm in map_new va pa (record v { pmm = pmm })

  -- The loop with `k` rounds left, and the number of pages it maps.
  unfoldable pub heap_page_loop : ℕ → ℕ → ℕ → Vmm → ℕ × Vmm
  heap_page_loop base i zero v = (i, v)
  heap_page_loop base i (suc k) v =
      let va = base + i * page_size in
      let (done, v') = heap_map_one va v in
      let rest = heap_page_loop base (suc i) k v' in
      if ltb kernel_heap_max (va + page_size) then (i, v) else if not done then (i, v') else rest

  unfoldable pub grow_pages : ℕ → ℕ → Heap → Vmm → Bool × Heap × Vmm
  grow_pages fuel need h v =
      let need_bytes = (need + 32) % 2 ^ 64 in
      let pages = (need_bytes + page_size - 1) % 2 ^ 64 / page_size in
      let (mapped, v') = heap_page_loop h.end 0 (if pages == 0 then 1 else pages) v in
      let (grown, h') = add_pages fuel mapped h in (grown, h', v')

  -- What each round answers, by its address.
  answers : ℕ → ℕ → ℕ → Vmm → ℕ → Bool
  answers base i zero v va = false
  answers base i (suc k) v va =
      let at = base + i * page_size in
      let (done, v') = heap_map_one at v in
      let later = answers base (suc i) k v' va in if at == va then done else later

  -- The loop asks only at the addresses of its rounds.
  map_loop-congr :
      (f g : ℕ → Bool) (base i k : ℕ)
      → ((j : ℕ) → i ≤ j → f (base + j * page_size) ≡ g (base + j * page_size))
      → map_loop f base i k ≡ map_loop g base i k
  unfolding map_loop
  map_loop-congr f g base i zero same = refl
  map_loop-congr f g base i (suc k) same = ground (
    arith,
    same i (omega arith),
    map_loop-congr f g base (suc i) k (λ j le. same j (omega arith)),
  )

  heap_page_loop-map_loop :
      (base i k : ℕ) (v : Vmm)
      → (heap_page_loop base i k v).0 ≡ map_loop (answers base i k v) base i k
  unfolding heap_page_loop map_loop answers
  heap_page_loop-map_loop base i zero v = refl
  heap_page_loop-map_loop base i (suc k) v =
      let at = base + i * page_size in
      let here : (at == at) ≡ true = ground arith in
      let v' = (heap_map_one at v).1 in
      elim (Bool-cases (ltb kernel_heap_max (at + page_size))) [
        | inl beyond ↦ rw beyond refl
        | inr below ↦ elim (Bool-cases (heap_map_one at v).0) [
          | inr fails ↦ rw (below, here, fails) refl
          | inl one ↦
              rw (below, here, one)
                (heap_page_loop-map_loop base (suc i) k v'
                  ∙ map_loop-congr (answers base (suc i) k v') (answers base i (suc k) v) base
                      (suc i) k
                      (λ j le.
                        let off : (at == base + j * page_size) ≡ false = ground arith in
                        rw off refl))
        ]
      ]

  -- A growth that takes its pages from the allocator and maps them is, for the heap, `heap_grow`
  -- with the answers of the rounds.
  pub grow_pages-heap_grow :
      (fuel need : ℕ) (h : Heap) (v : Vmm)
      → (map_page : ℕ → Bool) × (heap_grow fuel map_page need h
          ≡ ((grow_pages fuel need h v).0, (grow_pages fuel need h v).1))
  unfolding grow_pages heap_grow
  grow_pages-heap_grow fuel need h v =
      let pages = ((need + 32) % 2 ^ 64 + page_size - 1) % 2 ^ 64 / page_size in
      let k = if pages == 0 then 1 else pages in
      (
        answers h.end 0 k v,
        ap (λ n. add_pages fuel n h) (sym (heap_page_loop-map_loop h.end 0 k v)),
      )
