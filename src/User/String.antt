-- ===== src/User/String.antt =====
-- The functions of src/userspace/libc/string.c over the one memory of a process. An address is a
-- number and does not wrap; a `char` is the number of its unsigned byte. A loop up to a NUL has fuel.
pub mod Memory
pub mod Length
pub mod Copy
pub mod Strings
pub mod Bounded
pub mod Search
mod Tests
use exyde.Common.{
  ℕ, zero, suc, ◌+◌, ◌-◌, ◌%◌, ◌<◌, ◌≡◌, ◌≢◌, List, [], ◌∷◌, ℤ, pos, diff, ◌==◌, ltb, leb,
  if◌then◌else◌,
}

-- The memory.
abbrev pub Mem : Type 0
Mem = ℕ → ℕ

-- At the address `s` stand the bytes `cs` and a NUL behind them.
abbrev pub IsString : Mem → ℕ → List ℕ → Type 0
IsString mem s [] = mem s ≡ 0
IsString mem s (c ∷ cs) = (mem s ≡ c) × (c ≢ 0) × IsString mem (suc s) cs

-- The order of byte lists that the comparisons promise, in which the end counts as a NUL: the
-- difference at the first place where the lists differ.
abbrev pub compare_bytes : List ℕ → List ℕ → ℤ
compare_bytes [] [] = pos 0
compare_bytes [] (d ∷ ds) = diff 0 d
compare_bytes (c ∷ cs) [] = diff c 0
compare_bytes (c ∷ cs) (d ∷ ds) = if c == d then compare_bytes cs ds else diff c d
