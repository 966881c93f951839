-- ===== src/Kernel/Elf.antt =====
-- The loader of src/kernel/core/elf.c. An image is its bytes and its size; its structures are read in
-- place, lowest byte first. The copy to a process is assembly, and an argument, as are the addresses of
-- the image and of the page of zeros. `cr3` is the space whose tables the processor uses.
pub mod Bounds
mod Tests
use exyde.Common.{
  ℕ, zero, suc, ◌+◌, ◌-◌, ◌*◌, ◌/◌, ◌%◌, ◌^◌, Bool, true, false, not, ◌&&◌, ◌||◌, Option, some,
  none, leb, ltb, ◌==◌, if◌then◌else◌, bit_and, min,
}
use exyde.Kernel.Chain.{Ptr, null}
use exyde.Kernel.Errno.{Errno}
use exyde.Kernel.Pmm.{Pmm, page_size, pmm_alloc_page, pmm_free_page}
use exyde.Kernel.Vmm.{Vmm, vmm_map, vmm_switch, user_va_base}
use exyde.Kernel.Uaccess.{copy_to_user, user_va_top}

-- `elf64_ehdr_t`, with the fields that are read.
pub record Ehdr : Type 0 where
  pub e_ident : ℕ → ℕ
  pub e_type : ℕ
  pub e_machine : ℕ
  pub e_entry : ℕ
  pub e_phoff : ℕ
  pub e_phentsize : ℕ
  pub e_phnum : ℕ

-- `elf64_phdr_t`, the same.
pub record Phdr : Type 0 where
  pub p_type : ℕ
  pub p_offset : ℕ
  pub p_vaddr : ℕ
  pub p_filesz : ℕ
  pub p_memsz : ℕ

-- `elf_image_t`.
pub record Image : Type 0 where
  pub entry : ℕ
  pub load_base : ℕ
  pub load_size : ℕ

abbrev pub ehdr_size : ℕ
ehdr_size = 64

abbrev pub phdr_size : ℕ
phdr_size = 56

abbrev u16_at : (ℕ → ℕ) → ℕ → ℕ
u16_at b o = b o + b (o + 1) * 256

abbrev u32_at : (ℕ → ℕ) → ℕ → ℕ
u32_at b o = u16_at b o + u16_at b (o + 2) * 2 ^ 16

abbrev pub u64_at : (ℕ → ℕ) → ℕ → ℕ
u64_at b o = u32_at b o + u32_at b (o + 4) * 2 ^ 32

abbrev pub ehdr_at : (ℕ → ℕ) → Ehdr
ehdr_at b = record {
  e_ident = b;
  e_type = u16_at b 16;
  e_machine = u16_at b 18;
  e_entry = u64_at b 24;
  e_phoff = u64_at b 32;
  e_phentsize = u16_at b 54;
  e_phnum = u16_at b 56;
}

abbrev pub phdr_at : (ℕ → ℕ) → ℕ → Phdr
phdr_at b o = record {
  p_type = u32_at b o;
  p_offset = u64_at b (o + 8);
  p_vaddr = u64_at b (o + 16);
  p_filesz = u64_at b (o + 32);
  p_memsz = u64_at b (o + 40);
}

-- The checks of the header.
unfoldable pub header_ok : Ehdr → ℕ → Bool
header_ok eh size =
    let ph_bytes = eh.e_phnum * phdr_size % 2 ^ 64 in
    if ltb size ehdr_size
    then false
    else if not (eh.e_ident 0 == 0x7F)
        || not (eh.e_ident 1 == 69)
        || not (eh.e_ident 2 == 76)
        || not (eh.e_ident 3 == 70)
    then false
    else if not (eh.e_ident 4 == 2)
    then false
    else if not (eh.e_ident 5 == 1)
    then false
    else if not (eh.e_type == 2)
    then false
    else if not (eh.e_machine == 0x3E)
    then false
    else if not (eh.e_phentsize == phdr_size)
    then false
    else if eh.e_phnum == 0
    then false
    else if ltb size eh.e_phoff
    then false
    else if not (ph_bytes / phdr_size == eh.e_phnum)
    then false
    else if ltb (size - eh.e_phoff) ph_bytes
    then false
    else if ltb eh.e_entry user_va_base
    then false
    else true

abbrev pub seg_start : Phdr → ℕ
seg_start ph = bit_and ph.p_vaddr (2 ^ 64 - page_size)

abbrev pub seg_end : Phdr → ℕ
seg_end ph = bit_and ((ph.p_vaddr + ph.p_memsz + page_size - 1) % 2 ^ 64) (2 ^ 64 - page_size)

-- The checks of a segment.
unfoldable pub segment_ok : Phdr → ℕ → Bool
segment_ok ph size =
    if ltb ph.p_memsz ph.p_filesz
    then false
    else if ltb size ph.p_offset
    then false
    else if ltb (size - ph.p_offset) ph.p_filesz
    then false
    else if ltb ph.p_vaddr user_va_base
    then false
    else if ltb (2 ^ 64 - 1 - ph.p_vaddr) ph.p_memsz
    then false
    else if ltb (seg_end ph) (seg_start ph)
    then false
    else if ltb user_va_top (seg_end ph)
    then false
    else true

-- A page at `va`, behind its allocation.
abbrev pub map_one : Ptr → ℕ → Vmm → ℕ × Pmm → Bool × Vmm
map_one space va v (pa, pmm) =
    let v₁ = record v { pmm = pmm } in
    let (done, v₂) = vmm_map space va pa 7 v₁ in
    if pa == 0
    then (false, v₁)
    else if not done
    then (false, record v₂ { pmm = (pmm_free_page v₂.pmm pa).1 })
    else (true, v₂)

-- The pages of a segment, with the rounds left.
unfoldable pub map_pages : ℕ → Ptr → ℕ → Vmm → Bool × Vmm
map_pages zero space va v = (true, v)
map_pages (suc k) space va v =
    let (done, v₁) = map_one space va v (pmm_alloc_page v.pmm) in
    let rest = map_pages k space (va + page_size) v₁ in if not done then (false, v₁) else rest

-- The end of a segment: the next one, `goto done`, or `return false`.
pub data Next (M : Type 0) : Type 0 where
  loaded skipped : Vmm → M → Next M
  failed : Vmm → M → Next M
  refused : Next M

-- What a load leaves: the image if it succeeds, the tables, the memory and the space in use.
pub record LoadOutcome (M : Type 0) : Type 0 where
  pub image : Option Image
  pub vmm : Vmm
  pub memory : M
  pub cr3 : Ptr

module _ {M : Type 0} (memcpy_to_user : ℕ → ℕ → ℕ → M → Option Errno × M) (fuel : ℕ)
    (zeros image_at : ℕ) (b : ℕ → ℕ) (size : ℕ) (space : Ptr) where
  -- The zeros of a segment, with the rounds left.
  unfoldable pub zero_loop : ℕ → ℕ → ℕ → Vmm → M → Option Errno × M
  zero_loop zero dst rem v m = (none, m)
  zero_loop (suc k) dst rem v m =
      let chunk = if ltb page_size rem then page_size else rem in
      let (e, m₁) = copy_to_user memcpy_to_user fuel space dst zeros chunk v m in
      let rest = zero_loop k (dst + chunk) (rem - chunk) v m₁ in
      if rem == 0 then (none, m) else if_copied m₁ e rest
    where
      if_copied : M → Option Errno → Option Errno × M → Option Errno × M
      if_copied m none rest = rest
      if_copied m (some e) rest = (some e, m)

  -- The bytes of the file.
  abbrev pub file_copy : Phdr → Vmm → Option Errno × M → Next M
  file_copy ph v (some e, m) = failed v m
  file_copy ph v (none, m) =
      if ltb 0 ph.p_filesz
      then last_copy (
          copy_to_user memcpy_to_user fuel space ph.p_vaddr (image_at + ph.p_offset) ph.p_filesz v
            m)
      else loaded v m
    where
      last_copy : Option Errno × M → Next M
      last_copy (some e, m) = failed v m
      last_copy (none, m) = loaded v m

  abbrev pub fill_segment : Phdr → M → Bool × Vmm → Next M
  fill_segment ph m (false, v) = failed v m
  fill_segment ph m (true, v) =
      file_copy ph v
        (zero_loop ((ph.p_memsz + page_size - 1) / page_size) ph.p_vaddr ph.p_memsz v m)

  -- A round of the loop over the program headers.
  unfoldable pub load_segment : Phdr → Vmm → M → Next M
  load_segment ph v m =
      let pages = (seg_end ph - seg_start ph) / page_size in
      if not (ph.p_type == 1)
      then skipped v m
      else if ph.p_memsz == 0
      then skipped v m
      else if not (segment_ok ph size)
      then refused
      else fill_segment ph m (map_pages pages space (seg_start ph) v)

  -- Behind the loop.
  abbrev pub finish : Ehdr → Ptr → ℕ → ℕ → ℕ → Vmm → M → LoadOutcome M
  finish eh back lowest highest n v m =
      let image : Image = record {
        entry = eh.e_entry;
        load_base = lowest;
        load_size = highest - lowest;
      } in
      record { image = if n == 0 then none else some image; vmm = v; memory = m; cr3 = back }

  -- The end of a round; `return false` leaves the space in use as it is.
  abbrev pub by_next :
      Ptr
      → Ptr
      → Vmm
      → M
      → (Vmm → M → LoadOutcome M)
      → (Vmm → M → LoadOutcome M)
      → Next M
      → LoadOutcome M
  by_next back in_use v m on_load on_skip (loaded v' m') = on_load v' m'
  by_next back in_use v m on_load on_skip (skipped v' m') = on_skip v' m'
  by_next back in_use v m on_load on_skip (failed v' m') = record {
    image = none;
    vmm = v';
    memory = m';
    cr3 = back;
  }
  by_next back in_use v m on_load on_skip refused = record {
    image = none;
    vmm = v;
    memory = m;
    cr3 = in_use;
  }

  -- The loop, with the rounds left.
  unfoldable pub load_loop : ℕ → Ehdr → Ptr → Ptr → ℕ → ℕ → ℕ → ℕ → Vmm → M → LoadOutcome M
  load_loop zero eh back in_use i lowest highest n v m = finish eh back lowest highest n v m
  load_loop (suc k) eh back in_use i lowest highest n v m =
      let ph = phdr_at b (eh.e_phoff + i * phdr_size) in
      let lowest' = if ltb (seg_start ph) lowest then seg_start ph else lowest in
      let highest' = if ltb highest (seg_end ph) then seg_end ph else highest in
      by_next back in_use v m
        (λ v' m'. load_loop k eh back in_use (i + 1) lowest' highest' (n + 1) v' m')
        (λ v' m'. load_loop k eh back in_use (i + 1) lowest highest n v' m') (load_segment ph v m)

  -- `prev` is the space of the current thread, and `cr3` the one in use.
  unfoldable pub elf_load : Ptr → Ptr → Vmm → M → LoadOutcome M
  elf_load prev cr3 v m =
      let eh = ehdr_at b in
      let unchanged : LoadOutcome M = record { image = none; vmm = v; memory = m; cr3 = cr3 } in
      let in_use = if prev == space then cr3 else vmm_switch space cr3 in
      let back = if prev == space then in_use else vmm_switch prev in_use in
      if space == null || image_at == null
      then unchanged
      else if not (header_ok eh size)
      then unchanged
      else load_loop eh.e_phnum eh back in_use 0 (2 ^ 64 - 1) 0 0 v m
