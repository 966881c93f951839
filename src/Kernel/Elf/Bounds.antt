-- ===== src/Kernel/Elf/Bounds.antt =====
-- Where an image that is loaded lies.
use exyde.Common.{ℕ, ◌+◌, ◌-◌, ◌^◌, ◌<◌, ◌≤◌, ◌≡◌, Option, some, none, ◌⊎◌}
use exyde.Kernel.Chain.{Ptr}
use exyde.Kernel.Errno.{Errno}
use exyde.Kernel.Vmm.{Vmm, user_va_base}
use exyde.Kernel.Uaccess.{user_va_top}
use exyde.Kernel.Elf.{Image}

-- The addresses of the segments that are loaded so far.
abbrev Span : ℕ → ℕ → ℕ → Type 0
Span n lowest highest =
    ((n ≡ 0) × (lowest ≡ 2 ^ 64 - 1) × (highest ≡ 0))
    ⊎ ((0 < n) × (user_va_base ≤ lowest) × (lowest < highest) × (highest ≤ user_va_top))

-- What a load leaves: an image with its pages in the user half and the space in use as before, or no
-- image with one of the two spaces in use.
abbrev pub Placed : Ptr → Ptr → Option Image → Ptr → Type 0
Placed prev space none cr3 = (cr3 ≡ prev) ⊎ (cr3 ≡ space)
Placed prev space (some im) cr3 =
    (cr3 ≡ prev)
    × (user_va_base ≤ im.entry)
    × (user_va_base ≤ im.load_base)
    × (0 < im.load_size)
    × (im.load_base + im.load_size ≤ user_va_top)
