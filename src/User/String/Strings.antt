-- ===== src/User/String/Strings.antt =====
-- The strings that the copies of User.String.Copy leave behind them.
use exyde.Common.{
  ℕ, zero, suc, ◌+◌, ◌-◌, ◌<◌, ◌≤◌, ◌≡◌, ap, ◌∙◌, sym, fun_ext, List, [], ◌∷◌, ◌++◌, ◌==◌, some,
  true, false, arith, length, drop, get_or, leb, update, min, Bool-cases, inl, inr,
}
use exyde.User.String.{Mem, IsString}
use exyde.User.String.Memory.{forward, copied}
use exyde.User.String.Length.{strlen-length}
use exyde.User.String.Copy.{apart, strcpy_loop, strcpy, strncpy_loop, strcat_at, strcat}

-- A string stays one where its bytes are the same.
pub IsString-congr :
    (mem mem' : Mem) (s s' : ℕ) (cs : List ℕ)
    → ((k : ℕ) → k ≤ length cs → mem' (s' + k) ≡ mem (s + k))
    → IsString mem s cs
    → IsString mem' s' cs
IsString-congr mem mem' s s' [] same str =
    let e : s' ≡ s' + 0 = omega arith in
    let f : s + 0 ≡ s = omega arith in ap mem' e ∙ (same 0 (omega arith) ∙ (ap mem f ∙ str))
IsString-congr mem mem' s s' (c ∷ cs) same (at, nz, str) =
    let e : s' ≡ s' + 0 = omega arith in
    let f : s + 0 ≡ s = omega arith in
    (
      ap mem' e ∙ (same 0 (omega arith) ∙ (ap mem f ∙ at)),
      nz,
      IsString-congr mem mem' (suc s) (suc s') cs
          (λ k le.
            let a : suc s' + k ≡ s' + suc k = omega arith in
            let b : s + suc k ≡ suc s + k = omega arith in
            ap mem' a ∙ (same (suc k) (omega arith) ∙ ap mem b))
          str,
    )

pub IsString-get :
    (mem : Mem) (s : ℕ) (cs : List ℕ) (k : ℕ)
    → IsString mem s cs
    → k ≤ length cs
    → mem (s + k) ≡ get_or cs k 0
IsString-get mem s [] k str le = let e : s + k ≡ s = omega arith in ap mem e ∙ str
IsString-get mem s (c ∷ cs) zero (at, nz, str) le = let e : s + 0 ≡ s = omega arith in ap mem e ∙ at
IsString-get mem s (c ∷ cs) (suc k) (at, nz, str) le =
    let e : s + suc k ≡ suc s + k = omega arith in
    ap mem e ∙ IsString-get mem (suc s) cs k str (omega arith)

pub IsString-drop :
    (mem : Mem) (s k : ℕ) (cs : List ℕ)
    → IsString mem s cs
    → k ≤ length cs
    → IsString mem (s + k) (drop k cs)
IsString-drop mem s zero cs str le =
    let e : s ≡ s + 0 = omega arith in coe 0 1 (k. IsString mem (e k) cs) str
IsString-drop mem s (suc k) [] str le = absurd (omega arith)
IsString-drop mem s (suc k) (c ∷ cs) (at, nz, str) le =
    let e : suc s + k ≡ s + suc k = omega arith in
    coe 0 1 (j. IsString mem (e j) (drop k cs)) (IsString-drop mem (suc s) k cs str (omega arith))

-- A string in front of another one.
pub IsString-append :
    (mem mem' : Mem) (s : ℕ) (cs ds : List ℕ)
    → IsString mem s cs
    → ((k : ℕ) → k < length cs → mem' (s + k) ≡ mem (s + k))
    → IsString mem' (s + length cs) ds
    → IsString mem' s (cs ++ ds)
IsString-append mem mem' s [] ds str same str' =
    let e : s + 0 ≡ s = omega arith in coe 0 1 (k. IsString mem' (e k) ds) str'
IsString-append mem mem' s (c ∷ cs) ds (at, nz, str) same str' =
    let e : s ≡ s + 0 = omega arith in
    let g : s + suc (length cs) ≡ suc s + length cs = omega arith in
    (
      ap mem' e ∙ (same 0 (omega arith) ∙ (ap mem (sym e) ∙ at)),
      nz,
      IsString-append mem mem' (suc s) cs ds str
          (λ k lt.
            let a : suc s + k ≡ s + suc k = omega arith in
            ap mem' a ∙ (same (suc k) (omega arith) ∙ ap mem (sym a)))
          (coe 0 1 (k. IsString mem' (g k) ds) str'),
    )

-- What is behind a copy of a string.
pub copied-IsString :
    (mem : Mem) (d s : ℕ) (cs : List ℕ)
    → IsString mem s cs
    → IsString (copied mem d s (length cs + 1)) d cs
copied-IsString mem d s cs str =
    IsString-congr mem (copied mem d s (length cs + 1)) s d cs
      (λ k le. let e : d + k - d ≡ k = omega arith in ground (arith, ap (λ u. mem (s + u)) e)) str

copied-step :
    (mem : Mem) (d s n j : ℕ)
    → apart d (suc n) s (suc n) ≡ true
    → copied (update mem d (mem s)) (suc d) (suc s) n j ≡ copied mem d s (suc n) j
copied-step mem d s n j off = elim (Bool-cases (leb (suc d) j)) [
  | inl above ↦ let e : suc s + (j - suc d) ≡ s + (j - d) = ground arith in ground (arith, ap mem e)
  | inr low ↦ elim (Bool-cases (d == j)) [
    | inl here ↦ let e : s + (j - d) ≡ s = ground arith in ground (arith, ap mem e)
    | inr below ↦ ground arith
  ]
]

copied-one : (mem : Mem) (d s j : ℕ) → update mem d (mem s) j ≡ copied mem d s 1 j
copied-one mem d s j = elim (Bool-cases (d == j)) [
  | inl here ↦ let e : s + (j - d) ≡ s = ground arith in ground (arith, ap mem e)
  | inr there ↦ ground arith
]

strcpy_loop-copied :
    (fuel : ℕ) (mem : Mem) (d s : ℕ) (cs : List ℕ)
    → IsString mem s cs
    → apart d (length cs + 1) s (length cs + 1) ≡ true
    → length cs < fuel
    → strcpy_loop fuel mem d s ≡ some (copied mem d s (length cs + 1))
unfolding strcpy_loop
strcpy_loop-copied zero mem d s cs str off lt = absurd (omega arith)
strcpy_loop-copied (suc fuel) mem d s [] str off lt =
    let z : (mem s == 0) ≡ true = ground arith in rw z (ap some (fun_ext λ j. copied-one mem d s j))
strcpy_loop-copied (suc fuel) mem d s (c ∷ cs) (at, nz, str) off lt =
    let mem' = update mem d (mem s) in
    let str' = IsString-congr mem mem' (suc s) (suc s) cs (λ k le. ground arith) str in
    let z : (mem s == 0) ≡ false = ground arith in
    let n : suc (length cs + 1) ≡ suc (length cs) + 1 = omega arith in
    rw z (
      strcpy_loop-copied fuel mem' (suc d) (suc s) cs str' (ground arith) (omega arith)
      ∙ ap some (
          fun_ext λ j.
            copied-step mem d s (length cs + 1) j (ground arith) ∙ ap (λ u. copied mem d s u j) n))

-- On a string that does not overlap its destination `strcpy` ends, with fuel for the bytes and the
-- NUL. It copies both and changes no other byte, so the same string stands at the destination.
pub strcpy-IsString :
    (fuel : ℕ) (mem : Mem) (dst src : ℕ) (cs : List ℕ)
    → IsString mem src cs
    → apart dst (length cs + 1) src (length cs + 1) ≡ true
    → length cs < fuel
    → let mem' = copied mem dst src (length cs + 1) in
      (strcpy fuel mem dst src ≡ some mem') × IsString mem' dst cs
unfolding strcpy
strcpy-IsString fuel mem dst src cs str off lt =
    (strcpy_loop-copied fuel mem dst src cs str off lt, copied-IsString mem dst src cs str)

-- On two strings, the second apart from the first and from the room behind it, `strcat` ends, with
-- fuel for the bytes of each and a NUL. It copies the second behind the first, which makes their
-- concatenation, and changes no other byte.
pub strcat-IsString :
    (fuel : ℕ) (mem : Mem) (dst src : ℕ) (cs ds : List ℕ)
    → IsString mem dst cs
    → IsString mem src ds
    → apart dst (length cs + (length ds + 1)) src (length ds + 1) ≡ true
    → length cs < fuel
    → length ds < fuel
    → let mem' = copied mem (dst + length cs) src (length ds + 1) in
      (strcat fuel mem dst src ≡ some mem') × IsString mem' dst (cs ++ ds)
unfolding strcat
strcat-IsString fuel mem dst src cs ds str str' off lt lt' =
    let mem' = copied mem (dst + length cs) src (length ds + 1) in
    (
      ap (strcat_at fuel mem dst src) (strlen-length fuel mem dst cs str lt)
          ∙ strcpy_loop-copied fuel mem (dst + length cs) src ds str' (ground arith) lt',
      IsString-append mem mem' dst cs ds str (λ k below. ground arith)
          (copied-IsString mem (dst + length cs) src ds str'),
    )

pub strncpy_loop-forward :
    (mem : Mem) (d s i k : ℕ) (cs : List ℕ)
    → IsString mem (s + i) cs
    → apart d (i + k) s (i + (length cs + 1)) ≡ true
    → let m = min k (length cs) in strncpy_loop mem d s i k ≡ (i + m, forward mem d s i m)
unfolding strncpy_loop forward
strncpy_loop-forward mem d s i zero cs str off =
    let e : min 0 (length cs) ≡ 0 = omega arith in
    let f : i ≡ i + 0 = omega arith in rw e (ap (λ u. (u, mem)) f)
strncpy_loop-forward mem d s i (suc k) [] str off =
    let z : (mem (s + i) == 0) ≡ true = ground arith in
    let e : min (suc k) 0 ≡ 0 = omega arith in
    let f : i ≡ i + 0 = omega arith in rw (z, e) (ap (λ u. (u, mem)) f)
strncpy_loop-forward mem d s i (suc k) (c ∷ cs) (at, nz, str) off =
    let mem' = update mem (d + i) (mem (s + i)) in
    let z : (mem (s + i) == 0) ≡ false = ground arith in
    let e : suc (s + i) ≡ s + suc i = omega arith in
    let m : min (suc k) (suc (length cs)) ≡ suc (min k (length cs)) = omega arith in
    let f : suc i + min k (length cs) ≡ i + suc (min k (length cs)) = omega arith in
    let str' =
      IsString-congr mem mem' (s + suc i) (s + suc i) cs (λ j le. ground arith)
        (coe 0 1 (k. IsString mem (e k) cs) str) in
    rw (z, m)
      (strncpy_loop-forward mem' d s (suc i) k cs str' (ground arith)
        ∙ ap (λ u. (u, forward mem' d s (suc i) (min k (length cs)))) f)
