-- ===== src/User/String/Copy.antt =====
-- `strcpy`, `strncpy`, `strcat`, `strncat` and `strdup`.
use exyde.Common.{
  ℕ, zero, suc, ◌+◌, ◌-◌, ◌==◌, if◌then◌else◌, ◌||◌, Option, some, none, Bool, not, leb, update,
  fill,
}
use exyde.User.String.{Mem}
use exyde.User.String.Memory.{memcpy}
use exyde.User.String.Length.{strlen}

-- `while ((*d++ = *src++) != '\0') { }`
unfoldable pub strcpy_loop : ℕ → Mem → ℕ → ℕ → Option Mem
strcpy_loop zero mem d src = none
strcpy_loop (suc fuel) mem d src =
    let c = mem src in
    let mem' = update mem d c in
    let rest = strcpy_loop fuel mem' (suc d) (suc src) in if not (c == 0) then rest else some mem'

unfoldable pub strcpy : ℕ → Mem → ℕ → ℕ → Option Mem
strcpy fuel mem dst src = strcpy_loop fuel mem dst src

-- `for (; i < n && src[i]; ++i) d[i] = src[i];` with `k` rounds left: the index and the memory.
unfoldable pub strncpy_loop : Mem → ℕ → ℕ → ℕ → ℕ → ℕ × Mem
strncpy_loop mem d src i zero = (i, mem)
strncpy_loop mem d src i (suc k) =
    let rest = strncpy_loop (update mem (d + i) (mem (src + i))) d src (suc i) k in
    if not (mem (src + i) == 0) then rest else (i, mem)

unfoldable pub strncpy : Mem → ℕ → ℕ → ℕ → Mem
strncpy mem dst src n =
    let (i, mem') = strncpy_loop mem dst src 0 n in fill (n - i) (dst + i) 0 mem'

abbrev pub strcat_at : ℕ → Mem → ℕ → ℕ → Option ℕ → Option Mem
strcat_at fuel mem dst src none = none
strcat_at fuel mem dst src (some len) = strcpy_loop fuel mem (dst + len) src

unfoldable pub strcat : ℕ → Mem → ℕ → ℕ → Option Mem
strcat fuel mem dst src = strcat_at fuel mem dst src (strlen fuel mem dst)

abbrev pub strncat_at : Mem → ℕ → ℕ → ℕ → Option ℕ → Option Mem
strncat_at mem dst src n none = none
strncat_at mem dst src n (some len) =
    let d = dst + len in let (i, mem') = strncpy_loop mem d src 0 n in some (update mem' (d + i) 0)

unfoldable pub strncat : ℕ → Mem → ℕ → ℕ → ℕ → Option Mem
strncat fuel mem dst src n = strncat_at mem dst src n (strlen fuel mem dst)

-- The address of the copy, none for NULL, and the memory. What `malloc` returns is an argument.
abbrev pub strdup_to : Mem → ℕ → ℕ → Option ℕ → Option ℕ × Mem
strdup_to mem s n none = (none, mem)
strdup_to mem s n (some p) = (some p, memcpy mem p s n)

abbrev pub strdup_of : (ℕ → Option ℕ) → Mem → ℕ → Option ℕ → Option (Option ℕ × Mem)
strdup_of malloc mem s none = none
strdup_of malloc mem s (some len) = some (strdup_to mem s (len + 1) (malloc (len + 1)))

unfoldable pub strdup : ℕ → (ℕ → Option ℕ) → Mem → ℕ → Option (Option ℕ × Mem)
strdup fuel malloc mem s = strdup_of malloc mem s (strlen fuel mem s)

-- The `n` bytes at `d` and the `m` bytes at `s` do not overlap.
abbrev pub apart : ℕ → ℕ → ℕ → ℕ → Bool
apart d n s m = leb (d + n) s || leb (s + m) d
