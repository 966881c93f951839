-- ===== src/User/String/Memory.antt =====
-- `memcpy`, `memmove`, `memset`, `memcmp` and `memchr`.
use exyde.Common.{
  ℕ, zero, suc, ◌+◌, ◌-◌, ◌%◌, ◌<◌, ◌≡◌, refl, ap, ℤ, pos, diff, ◌==◌, ltb, leb, if◌then◌else◌,
  ◌&&◌, ◌||◌, Option, some, none, update, fill, bytes, true, not, Bool-cases, inl, inr, arith,
  fun_ext,
}
use exyde.User.String.{Mem, compare_bytes}

-- `for (; i < n; ++i) d[i] = s[i];` with `k` rounds left.
unfoldable pub forward : Mem → ℕ → ℕ → ℕ → ℕ → Mem
forward mem d s i zero = mem
forward mem d s i (suc k) = forward (update mem (d + i) (mem (s + i))) d s (suc i) k

-- `for (i = n; i > 0; --i) d[i - 1] = s[i - 1];`
unfoldable pub backward : Mem → ℕ → ℕ → ℕ → Mem
backward mem d s zero = mem
backward mem d s (suc i) = backward (update mem (d + i) (mem (s + i))) d s i

unfoldable pub memcpy : Mem → ℕ → ℕ → ℕ → Mem
memcpy mem dst src n = forward mem dst src 0 n

unfoldable pub memmove : Mem → ℕ → ℕ → ℕ → Mem
memmove mem dst src n =
    if ltb dst src
    then forward mem dst src 0 n
    else if ltb src dst
    then backward mem dst src n
    else mem

unfoldable pub memset : Mem → ℕ → ℕ → ℕ → Mem
memset mem dst c n = fill n dst (c % 256) mem

unfoldable pub memcmp : Mem → ℕ → ℕ → ℕ → ℤ
memcmp mem x y zero = pos 0
memcmp mem x y (suc k) =
    let rest = memcmp mem (suc x) (suc y) k in
    if not (mem x == mem y) then diff (mem x) (mem y) else rest

-- The address, or none for NULL.
unfoldable pub memchr : Mem → ℕ → ℕ → ℕ → Option ℕ
memchr mem p c zero = none
memchr mem p c (suc k) =
    let rest = memchr mem (suc p) c k in if mem p == c % 256 then some p else rest

-- The memory with the `n` bytes at `s` also at `d`, all taken from before.
abbrev pub copied : Mem → ℕ → ℕ → ℕ → Mem
copied mem d s n j = if leb d j && ltb j (d + n) then mem (s + (j - d)) else mem j

-- A copy from the front is right when the destination is not inside the source.
pub forward_lem :
    (mem : Mem) (d s i k j : ℕ)
    → (ltb d s || leb (s + (i + k)) d) ≡ true
    → forward mem d s i k j
      ≡ (if leb (d + i) j && ltb j (d + (i + k)) then mem (s + (j - d)) else mem j)
unfolding forward
forward_lem mem d s i zero j apart = ground arith
forward_lem mem d s i (suc k) j apart =
    ground (arith, forward_lem (update mem (d + i) (mem (s + i))) d s (suc i) k j)

pub backward_lem : (mem : Mem) (d s i j : ℕ) → s < d → backward mem d s i j ≡ copied mem d s i j
unfolding backward
backward_lem mem d s zero j lt = ground arith
backward_lem mem d s (suc i) j lt =
    ground (arith, backward_lem (update mem (d + i) (mem (s + i))) d s i j)

-- `memmove` copies the bytes as they were, whether the two ranges overlap or not, and changes no
-- other.
pub memmove-copied : (mem : Mem) (d s n : ℕ) → memmove mem d s n ≡ copied mem d s n
unfolding memmove
memmove-copied mem d s n = fun_ext λ j. elim (Bool-cases (ltb d s)) [
  | inl below ↦ ground (arith, forward_lem mem d s 0 n j (ground arith))
  | inr not_below ↦ elim (Bool-cases (ltb s d)) [
    | inl above ↦ ground (arith, backward_lem mem d s n j)
    | inr not_above ↦
        let e : s ≡ d = ground arith in
        let f : leb d j ≡ true → s + (j - d) ≡ j = λ h. ground arith in
        elim (Bool-cases (leb d j)) [ inl y ↦ ground (arith, ap mem (f y)) | inr z ↦ ground arith ]
  ]
]

-- The comparison is that of the two byte lists.
pub memcmp-compare :
    (mem : Mem) (x y n : ℕ) → memcmp mem x y n ≡ compare_bytes (bytes mem x n) (bytes mem y n)
unfolding memcmp
memcmp-compare mem x y zero = refl
memcmp-compare mem x y (suc k) = ground (arith, memcmp-compare mem (suc x) (suc y) k)
