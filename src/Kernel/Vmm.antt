-- ===== src/Kernel/Vmm.antt =====
-- The address spaces of src/kernel/arch/x86_64/mm/vmm.c and vmm.h: four levels of page tables, which
-- stand in pages of the physical page allocator. A table is the function of its 512 entries at its
-- address. `vmm_flush` is an instruction that changes no memory.
pub mod Entry
pub mod Walk
pub mod Page
pub mod NewTable
pub mod Step
pub mod Leaf
pub mod Mapping
pub mod Map
pub mod Unmap
pub mod Sample
pub mod Boot
pub mod Spaces
mod Tests
use exyde.Common.{
  ℕ, zero, suc, ◌+◌, ◌-◌, ◌*◌, ◌/◌, ◌%◌, ◌^◌, Bool, true, false, not, ◌&&◌, ◌||◌, Option, some,
  none, leb, ltb, ◌==◌, if◌then◌else◌, update, bit_and, bit_or, fill,
}
use exyde.Kernel.Chain.{Ptr, null}
use exyde.Kernel.Pmm.{Pmm, page_size, pmm_alloc_page, pmm_free_page}

abbrev pub pte_present : ℕ
pte_present = 1

abbrev pub pte_write : ℕ
pte_write = 2

abbrev pub pte_user : ℕ
pte_user = 4

abbrev pub pte_pwt : ℕ
pte_pwt = 8

abbrev pub pte_pcd : ℕ
pte_pcd = 16

abbrev pub pte_huge : ℕ
pte_huge = 128

abbrev pub pte_addr_mask : ℕ
pte_addr_mask = 0x000FFFFFFFFFF000

abbrev pub vm_present : ℕ
vm_present = 1

abbrev pub vm_write : ℕ
vm_write = 2

abbrev pub vm_user : ℕ
vm_user = 4

abbrev pub vm_nocache : ℕ
vm_nocache = 8

abbrev pub kernel_va_base : ℕ
kernel_va_base = 0x40000000

abbrev pub user_va_base : ℕ
user_va_base = 0x0000008000000000

-- `struct vmm_space`.
pub record Space : Type 0 where
  pub pml4 : Ptr
  pub refcount : ℕ
  pub is_kernel : Bool

-- The memory that the functions work on.
pub record Vmm : Type 0 where
  pub tables : Ptr → ℕ → ℕ
  pub spaces : Ptr → Space
  pub pmm : Pmm
  pub kernel_space_ready : Bool

-- `x & flag` as a condition.
unfoldable pub test_flag : ℕ → ℕ → Bool
test_flag x flag = not (bit_and x flag == 0)

unfoldable pub idx_pml4 : ℕ → ℕ
idx_pml4 va = bit_and (va / 2 ^ 39) 0x1FF

unfoldable pub idx_pdpt : ℕ → ℕ
idx_pdpt va = bit_and (va / 2 ^ 30) 0x1FF

unfoldable pub idx_pd : ℕ → ℕ
idx_pd va = bit_and (va / 2 ^ 21) 0x1FF

unfoldable pub idx_pt : ℕ → ℕ
idx_pt va = bit_and (va / 2 ^ 12) 0x1FF

-- `if (c) r |= x;`
abbrev pub or_if : Bool → ℕ → ℕ → ℕ
or_if c x r = if c then bit_or r x else r

unfoldable pub flags_to_pte : ℕ → ℕ
flags_to_pte f = or_if (test_flag f vm_nocache) (bit_or pte_pwt pte_pcd) (
    or_if (test_flag f vm_user) pte_user
      (or_if (test_flag f vm_write) pte_write (or_if (test_flag f vm_present) pte_present 0)))

unfoldable pub pte_to_flags : ℕ → ℕ
pte_to_flags e = or_if (test_flag e (bit_or pte_pwt pte_pcd)) vm_nocache (
    or_if (test_flag e pte_user) vm_user
      (or_if (test_flag e pte_write) vm_write (or_if (test_flag e pte_present) vm_present 0)))

abbrev pub zero_page : Ptr → (Ptr → ℕ → ℕ) → Ptr → ℕ → ℕ
zero_page p tables = update tables p (fill 512 0 0 (tables p))

-- `table[idx] = e`.
abbrev pub set_entry : Ptr → ℕ → ℕ → (Ptr → ℕ → ℕ) → Ptr → ℕ → ℕ
set_entry table idx e tables = update tables table (update (tables table) idx e)

-- `descend_or_alloc` behind its allocation.
abbrev pub new_table : Ptr → ℕ → Bool → Vmm → ℕ × Pmm → Ptr × Vmm
new_table table idx child_user v (np, pmm) =
    let flags = or_if child_user pte_user (bit_or pte_present pte_write) in
    if np == 0 then (null, record v { pmm = pmm }) else (
      np,
      record v {
        tables = set_entry table idx (bit_or np flags) (zero_page np v.tables);
        pmm = pmm;
      },
    )

unfoldable pub descend_or_alloc : Ptr → ℕ → Bool → Vmm → Ptr × Vmm
descend_or_alloc table idx child_user v =
    let e = v.tables table idx in
    if test_flag e pte_present
    then (if test_flag e pte_huge then (null, v) else (bit_and e pte_addr_mask, v))
    else new_table table idx child_user v (pmm_alloc_page v.pmm)

-- The space in use, which was `cr3`.
abbrev pub vmm_switch : Ptr → Ptr → Ptr
vmm_switch s cr3 = if s == null then cr3 else s

-- The table that an entry points to.
abbrev pub child_of : ℕ → Option Ptr
child_of e =
    if not (test_flag e pte_present) || test_flag e pte_huge
    then none
    else some (bit_and e pte_addr_mask)

abbrev pub at_child : (Ptr → Ptr) → Option Ptr → Ptr
at_child next none = null
at_child next (some t) = next t

unfoldable pub walk_leaf : Ptr → ℕ → Vmm → Ptr
walk_leaf space va v =
    if space == null
    then null
    else at_child
        (λ pdpt.
          at_child (λ pd. at_child (λ pt. pt) (child_of (v.tables pd (idx_pd va))))
            (child_of (v.tables pdpt (idx_pdpt va))))
        (child_of (v.tables (v.spaces space).pml4 (idx_pml4 va)))

abbrev pub lower_bound : Ptr → Vmm → ℕ
lower_bound space v = if (v.spaces space).is_kernel then kernel_va_base else user_va_base

abbrev pub is_offset : ℕ → Bool
is_offset a = test_flag a (page_size - 1)

abbrev pub in_table : (Ptr → Vmm → Bool × Vmm) → Ptr × Vmm → Bool × Vmm
in_table next (t, v) = if t == null then (false, v) else next t v

-- The last level of `vmm_map`.
abbrev pub map_leaf : ℕ → ℕ → ℕ → Ptr → Vmm → Bool × Vmm
map_leaf va pa flags pt v =
    let i = idx_pt va in
    let e = bit_or (bit_and pa pte_addr_mask) (flags_to_pte flags) in
    if test_flag (v.tables pt i) pte_present
    then (false, v)
    else (true, record v { tables = set_entry pt i e v.tables })

abbrev pub map_from : ℕ → ℕ → ℕ → Ptr → Vmm → Bool × Vmm
map_from va pa flags root v =
    let user = test_flag flags vm_user in
    in_table
      (λ pdpt v₁.
        in_table
          (λ pd v₂. in_table (map_leaf va pa flags) (descend_or_alloc pd (idx_pd va) user v₂))
          (descend_or_alloc pdpt (idx_pdpt va) user v₁))
      (descend_or_alloc root (idx_pml4 va) user v)

unfoldable pub vmm_map : Ptr → ℕ → ℕ → ℕ → Vmm → Bool × Vmm
vmm_map space va pa flags v =
    if space == null
    then (false, v)
    else if is_offset va
    then (false, v)
    else if is_offset pa
    then (false, v)
    else if ltb va (lower_bound space v)
    then (false, v)
    else if not (test_flag flags vm_present)
    then (false, v)
    else map_from va pa flags (v.spaces space).pml4 v

abbrev pub unmap_leaf : ℕ → Vmm → Ptr → Bool × Vmm
unmap_leaf va v pt =
    let i = idx_pt va in
    if pt == null
    then (false, v)
    else if not (test_flag (v.tables pt i) pte_present)
    then (false, v)
    else (true, record v { tables = set_entry pt i 0 v.tables })

unfoldable pub vmm_unmap : Ptr → ℕ → Vmm → Bool × Vmm
vmm_unmap space va v =
    if space == null
    then (false, v)
    else if is_offset va
    then (false, v)
    else if ltb va (lower_bound space v)
    then (false, v)
    else unmap_leaf va v (walk_leaf space va v)

-- The physical address and the flags.
abbrev pub query_leaf : ℕ → Vmm → Ptr → Option (ℕ × ℕ)
query_leaf va v pt =
    let e = v.tables pt (idx_pt va) in
    if pt == null
    then none
    else if not (test_flag e pte_present)
    then none
    else some (bit_and e pte_addr_mask, pte_to_flags e)

unfoldable pub vmm_query : Ptr → ℕ → Vmm → Option (ℕ × ℕ)
vmm_query space va v =
    if space == null
    then none
    else if is_offset va
    then none
    else query_leaf va v (walk_leaf space va v)
