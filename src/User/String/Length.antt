-- ===== src/User/String/Length.antt =====
-- `strlen`, `strcmp` and `strncmp`.
use exyde.Common.{
  ℕ, zero, suc, ◌+◌, ◌<◌, ◌≡◌, refl, ap, ◌∙◌, List, [], ◌∷◌, ℤ, pos, diff, ◌==◌, if◌then◌else◌,
  ◌&&◌, Option, some, none, not, arith, length, take,
}
use exyde.User.String.{Mem, IsString, compare_bytes}

-- The loop of `strlen` at the index `n`.
unfoldable pub strlen_loop : ℕ → Mem → ℕ → ℕ → Option ℕ
strlen_loop zero mem s n = none
strlen_loop (suc fuel) mem s n =
    let rest = strlen_loop fuel mem s (n + 1) in if not (mem (s + n) == 0) then rest else some n

unfoldable pub strlen : ℕ → Mem → ℕ → Option ℕ
strlen fuel mem s = strlen_loop fuel mem s 0

unfoldable pub strcmp : ℕ → Mem → ℕ → ℕ → Option ℤ
strcmp zero mem a b = none
strcmp (suc fuel) mem a b =
    let rest = strcmp fuel mem (suc a) (suc b) in
    if not (mem a == 0) && (mem a == mem b) then rest else some (diff (mem a) (mem b))

-- The addresses are those of the current bytes.
unfoldable pub strncmp : Mem → ℕ → ℕ → ℕ → ℤ
strncmp mem a b zero = pos 0
strncmp mem a b (suc n) =
    let rest = strncmp mem (suc a) (suc b) n in
    if not (mem a == mem b) then diff (mem a) (mem b) else if mem a == 0 then pos 0 else rest

strlen_loop-length :
    (fuel : ℕ) (mem : Mem) (s n : ℕ) (cs : List ℕ)
    → IsString mem (s + n) cs
    → length cs < fuel
    → strlen_loop fuel mem s n ≡ some (n + length cs)
unfolding strlen_loop
strlen_loop-length zero mem s n cs str lt = absurd (omega arith)
strlen_loop-length (suc fuel) mem s n [] str lt = let e : n + 0 ≡ n = omega arith in ground arith
strlen_loop-length (suc fuel) mem s n (c ∷ cs) (at, nz, str) lt =
    let e : suc (s + n) ≡ s + (n + 1) = omega arith in
    let f : n + 1 + length cs ≡ n + suc (length cs) = omega arith in
    let str' = coe 0 1 (k. IsString mem (e k) cs) str in
    let rest = strlen_loop-length fuel mem s (n + 1) cs str' (omega arith) in
    ground (arith, rest ∙ ap some f)

-- The length of a string is the number of its bytes, with fuel for one more.
pub strlen-length :
    (fuel : ℕ) (mem : Mem) (s : ℕ) (cs : List ℕ)
    → IsString mem s cs
    → length cs < fuel
    → strlen fuel mem s ≡ some (length cs)
unfolding strlen
strlen-length fuel mem s cs str lt =
    let e : s ≡ s + 0 = omega arith in
    let f : 0 + length cs ≡ length cs = omega arith in
    strlen_loop-length fuel mem s 0 cs (coe 0 1 (k. IsString mem (e k) cs) str) lt ∙ ap some f

-- On two strings `strcmp` ends, with fuel for the bytes of the first and its NUL, and returns the
-- comparison of their bytes.
pub strcmp-compare :
    (fuel : ℕ) (mem : Mem) (a b : ℕ) (cs ds : List ℕ)
    → IsString mem a cs
    → IsString mem b ds
    → length cs < fuel
    → strcmp fuel mem a b ≡ some (compare_bytes cs ds)
unfolding strcmp
strcmp-compare zero mem a b cs ds x y lt = absurd (omega arith)
strcmp-compare (suc fuel) mem a b [] [] x y lt = ground arith
strcmp-compare (suc fuel) mem a b [] (d ∷ ds) x y lt = ground (arith, y.0)
strcmp-compare (suc fuel) mem a b (c ∷ cs) [] x y lt = ground (arith, x.0, x.1)
strcmp-compare (suc fuel) mem a b (c ∷ cs) (d ∷ ds) (x, nx, xs) (y, ny, ys) lt =
    ground (arith, strcmp-compare fuel mem (suc a) (suc b) cs ds xs ys (omega arith))

-- On two strings `strncmp` returns the comparison of their first `n` bytes.
pub strncmp-compare :
    (mem : Mem) (a b n : ℕ) (cs ds : List ℕ)
    → IsString mem a cs
    → IsString mem b ds
    → strncmp mem a b n ≡ compare_bytes (take n cs) (take n ds)
unfolding strncmp
strncmp-compare mem a b zero cs ds x y = refl
strncmp-compare mem a b (suc n) [] [] x y = ground arith
strncmp-compare mem a b (suc n) [] (d ∷ ds) x y = ground (arith, y.0, y.1)
strncmp-compare mem a b (suc n) (c ∷ cs) [] x y = ground (arith, x.0, x.1)
strncmp-compare mem a b (suc n) (c ∷ cs) (d ∷ ds) (x, nx, xs) (y, ny, ys) =
    ground (arith, strncmp-compare mem (suc a) (suc b) n cs ds xs ys)
