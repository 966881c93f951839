-- ===== src/Kernel/Uaccess.antt =====
-- The access of the kernel to the memory of a process, src/kernel/core/uaccess.c. A status of none is
-- 0, and `some e` is `-e`. The copies themselves are assembly, and arguments here; so is the byte that
-- one of them reads, or none for a fault.
pub mod Ranges
pub mod Text
mod Tests
use exyde.Common.{
  ℕ, zero, suc, ◌+◌, ◌-◌, ◌*◌, ◌/◌, ◌%◌, ◌^◌, Bool, true, false, not, ◌&&◌, ◌||◌, Option, some,
  none, leb, ltb, ◌==◌, if◌then◌else◌, update, bit_and,
}
use exyde.Kernel.Chain.{Ptr, null}
use exyde.Kernel.Errno.{Errno, efault, einval, enametoolong}
use exyde.Kernel.Pmm.{page_size}
use exyde.Kernel.Vmm.{Vmm, test_flag, vmm_query, vm_user, user_va_base}

abbrev pub user_va_top : ℕ
user_va_top = 0x0000800000000000

unfoldable pub range_in_user_half : ℕ → ℕ → Bool
range_in_user_half va n =
    let end = (va + n) % 2 ^ 64 in
    if n == 0
    then true
    else if ltb end va
    then false
    else if ltb va user_va_base
    then false
    else if ltb user_va_top end
    then false
    else true

-- The checks of one page, before those of the rest.
abbrev pub page_status : Option Errno → Option (ℕ × ℕ) → Option Errno
page_status rest none = some efault
page_status rest (some (pa, flags)) = if not (test_flag flags vm_user) then some efault else rest

unfoldable pub page_loop : ℕ → Ptr → ℕ → ℕ → Vmm → Option Errno
page_loop zero space page end v = some efault
page_loop (suc k) space page end v =
    let rest = page_loop k space ((page + page_size) % 2 ^ 64) end v in
    if not (ltb page end) then none else page_status rest (vmm_query space page v)

unfoldable pub user_range_ok : ℕ → Ptr → ℕ → ℕ → Vmm → Option Errno
user_range_ok fuel space va n v =
    let page = bit_and va (2 ^ 64 - page_size) in
    if n == 0
    then none
    else if not (range_in_user_half va n)
    then some efault
    else page_loop fuel space page ((va + n) % 2 ^ 64) v

-- A copy in the state `m` behind the check of the range.
abbrev pub if_ok : {M : Type 0} → M → Option Errno → Option Errno × M → Option Errno × M
if_ok m (some e) copied = (some e, m)
if_ok m none copied = copied

module _ {M : Type 0} (memcpy_to_user : ℕ → ℕ → ℕ → M → Option Errno × M) where
  abbrev pub copy_to_user : ℕ → Ptr → ℕ → ℕ → ℕ → Vmm → M → Option Errno × M
  copy_to_user fuel space udst src n v m =
      if_ok m (user_range_ok fuel space udst n v) (memcpy_to_user udst src n m)

module _ {M : Type 0} (memcpy_from_user : ℕ → ℕ → ℕ → M → Option Errno × M) where
  abbrev pub copy_from_user : ℕ → Ptr → ℕ → ℕ → ℕ → Vmm → M → Option Errno × M
  copy_from_user fuel space dst usrc n v m =
      if_ok m (user_range_ok fuel space usrc n v) (memcpy_from_user dst usrc n m)

-- The bytes of the kernel, and the byte that was read for the index `i`, with the rounds behind it.
abbrev pub put_char :
    ℕ → (ℕ → ℕ) → ((ℕ → ℕ) → Option Errno × (ℕ → ℕ)) → Option ℕ → Option Errno × (ℕ → ℕ)
put_char to m rest none = (some efault, m)
put_char to m rest (some c) = if c == 0 then (none, update m to c) else rest (update m to c)

-- The error of a check that failed is `-EFAULT`.
abbrev pub or_fault : Option Errno → Option Errno
or_fault none = none
or_fault (some e) = some efault

module _ (read_byte : ℕ → Option ℕ) (fuel : ℕ) (space : Ptr) (v : Vmm) where
  unfoldable pub strncpy_user_loop : ℕ → ℕ → ℕ → ℕ → (ℕ → ℕ) → Option Errno × (ℕ → ℕ)
  strncpy_user_loop zero i dst usrc m = (some enametoolong, update m (dst + i - 1) 0)
  strncpy_user_loop (suc k) i dst usrc m =
      let va = (usrc + i) % 2 ^ 64 in
      let rest : (ℕ → ℕ) → Option Errno × (ℕ → ℕ) = λ m'. strncpy_user_loop k (i + 1) dst usrc m' in
      if ltb va usrc
      then (some efault, m)
      else if_ok m (or_fault (user_range_ok fuel space va 1 v))
          (put_char (dst + i) m rest (read_byte va))

  abbrev pub strncpy_from_user : ℕ → ℕ → ℕ → (ℕ → ℕ) → Option Errno × (ℕ → ℕ)
  strncpy_from_user dst usrc max m =
      if max == 0 || dst == null then (some einval, m) else strncpy_user_loop max 0 dst usrc m
