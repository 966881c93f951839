-- ===== src/Kernel/Vmm/Spaces.antt =====
-- The making, the sharing and the end of address spaces in vmm.c.
use exyde.Common.{
  ℕ, zero, suc, ◌+◌, ◌-◌, ◌%◌, ◌^◌, true, false, not, Option, some, none, ◌==◌, if◌then◌else◌,
  update, bit_and,
}
use exyde.Kernel.Chain.{Ptr, null}
use exyde.Kernel.Pmm.{Pmm, pmm_alloc_page, pmm_free_page}
use exyde.Kernel.Vmm.{Vmm, test_flag, pte_present, pte_huge, pte_addr_mask, zero_page}

-- The address of the kernel's space and that of the tables it boots with are the linker's.
abbrev pub vmm_kernel_space : Ptr → Ptr → Vmm → Ptr × Vmm
vmm_kernel_space kernel_space boot_pml4 v =
    if not v.kernel_space_ready
    then (
      kernel_space,
      record v {
        spaces =
            update v.spaces kernel_space
              (record { pml4 = boot_pml4; refcount = 0xFFFFFFFF; is_kernel = true });
        kernel_space_ready = true;
      },
    )
    else (kernel_space, v)

-- `for (i = 0; i < 512; ++i) to[i] = from[i];` with the rounds left, from `i` on.
unfoldable pub copy_entries : ℕ → ℕ → (ℕ → ℕ) → (ℕ → ℕ) → ℕ → ℕ
copy_entries zero i from to = to
copy_entries (suc k) i from to = copy_entries k (i + 1) from (update to i (from i))

-- `vmm_create` behind the allocation of its page: the space and what it frees.
abbrev pub new_space : Ptr → Ptr → Ptr → Vmm → ℕ × Pmm → Ptr × Option Ptr × Vmm
new_space kernel_space boot_pml4 s v (np, pmm) =
    let (k, v₁) =
      vmm_kernel_space kernel_space boot_pml4
        (record v { tables = zero_page np v.tables; pmm = pmm }) in
    let t = v₁.tables in
    if np == 0 then (null, some s, record v { pmm = pmm }) else (
      s,
      none,
      record v₁ {
        tables = update t np (copy_entries 512 0 (t (v₁.spaces k).pml4) (t np));
        spaces = update v₁.spaces s (record { pml4 = np; refcount = 1; is_kernel = false });
      },
    )

-- `s` is the zeroed memory for the structure, or NULL.
unfoldable pub vmm_create : Ptr → Ptr → Ptr → Vmm → Ptr × Option Ptr × Vmm
vmm_create kernel_space boot_pml4 s v =
    if s == null
    then (null, none, v)
    else new_space kernel_space boot_pml4 s v (pmm_alloc_page v.pmm)

-- A loop over entries from `i` on, with the rounds left.
unfoldable pub each_entry : (ℕ → Pmm → Pmm) → (ℕ → ℕ) → ℕ → ℕ → Pmm → Pmm
each_entry free_entry table zero i p = p
each_entry free_entry table (suc k) i p =
    each_entry free_entry table k (i + 1) (free_entry (table i) p)

abbrev pub free_page : ℕ → Pmm → Pmm
free_page pa p = (pmm_free_page p pa).1

abbrev pub free_leaf : ℕ → Pmm → Pmm
free_leaf e p =
    if not (test_flag e pte_present)
    then p
    else if test_flag e pte_huge
    then p
    else free_page (bit_and e pte_addr_mask) p

abbrev pub free_pt : (Ptr → ℕ → ℕ) → Ptr → Pmm → Pmm
free_pt tables pt p = free_page pt (each_entry free_leaf (tables pt) 512 0 p)

-- An entry of the upper levels, with the function that frees the table it points to.
abbrev pub free_child : (Ptr → Pmm → Pmm) → ℕ → Pmm → Pmm
free_child free_table e p =
    if not (test_flag e pte_present)
    then p
    else if test_flag e pte_huge
    then free_page (bit_and e pte_addr_mask) p
    else free_table (bit_and e pte_addr_mask) p

abbrev pub free_pd : (Ptr → ℕ → ℕ) → Ptr → Pmm → Pmm
free_pd tables pd p = free_page pd (each_entry (free_child (free_pt tables)) (tables pd) 512 0 p)

abbrev pub free_pdpt : (Ptr → ℕ → ℕ) → Ptr → Pmm → Pmm
free_pdpt tables pdpt p =
    free_page pdpt (each_entry (free_child (free_pd tables)) (tables pdpt) 512 0 p)

-- The structure is freed as well.
abbrev pub destroy_space : Ptr → Vmm → Option Ptr × Vmm
destroy_space space v =
    let root = (v.spaces space).pml4 in
    (
      some space,
      record v {
        pmm =
            free_page root
              (each_entry (free_child (free_pdpt v.tables)) (v.tables root) 511 1 v.pmm);
      },
    )

abbrev pub set_refcount : Ptr → ℕ → Vmm → Vmm
set_refcount space n v = record v {
  spaces = update v.spaces space (record (v.spaces space) { refcount = n });
}

unfoldable pub vmm_space_ref : Ptr → Vmm → Vmm
vmm_space_ref space v =
    let s = v.spaces space in
    if space == null
    then v
    else if s.is_kernel
    then v
    else set_refcount space ((s.refcount + 1) % 2 ^ 32) v

-- The structure it frees, if any.
unfoldable pub vmm_space_unref : Ptr → Vmm → Option Ptr × Vmm
vmm_space_unref space v =
    let s = v.spaces space in
    let v₁ = set_refcount space (s.refcount - 1) v in
    if space == null
    then (none, v)
    else if s.is_kernel
    then (none, v)
    else if s.refcount == 0
    then (none, v)
    else if s.refcount - 1 == 0
    then destroy_space space v₁
    else (none, v₁)
