-- ===== src/Common/Ints.antt =====
-- Signed numbers over the native ones, under the library's names.
use Prim.Native.Nat.{ℕ, suc, ◌-◌}
use exyde.Common.Tests.{leb, if◌then◌else◌}

pub data ℤ : Type 0 where
  pos : ℕ → ℤ
  negsuc : ℕ → ℤ

-- `(int)a - (int)b`.
abbrev pub diff : ℕ → ℕ → ℤ
diff a b = if leb b a then pos (a - b) else negsuc (b - suc a)

-- `-(long)a`.
abbrev pub neg : ℕ → ℤ
neg a = diff 0 a
