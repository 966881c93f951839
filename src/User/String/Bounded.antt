-- ===== src/User/String/Bounded.antt =====
-- What the copies of at most `n` bytes leave behind them, and a duplicate.
use exyde.Common.{
  ℕ, zero, suc, ◌+◌, ◌-◌, ◌<◌, ◌≤◌, ◌≡◌, refl, ap, ◌∙◌, fun_ext, List, [], ◌∷◌, ◌++◌, if◌then◌else◌,
  ◌&&◌, ◌||◌, Option, some, true, arith, length, take, get_or, ltb, leb, update, fill, fill_lem,
  min, Bool-cases, inl, inr,
}
use exyde.User.String.{Mem, IsString}
use exyde.User.String.Memory.{memcpy, forward, forward_lem, copied}
use exyde.User.String.Length.{strlen-length}
use exyde.User.String.Copy.{apart, strncpy, strncat_at, strncat, strdup_to, strdup_of, strdup}
use exyde.User.String.Strings.{IsString-get, IsString-append, copied-IsString, strncpy_loop-forward}

pub get_or-past : (cs : List ℕ) (k d : ℕ) → length cs ≤ k → get_or cs k d ≡ d
get_or-past [] k d le = refl
get_or-past (c ∷ cs) zero d le = absurd (omega arith)
get_or-past (c ∷ cs) (suc k) d le = get_or-past cs k d (omega arith)

-- A byte of the string, read at an address behind its start.
string_byte :
    (mem : Mem) (d s j : ℕ) (cs : List ℕ)
    → IsString mem s cs
    → j - d ≤ length cs
    → mem (s + (j - d)) ≡ get_or cs (j - d) 0
string_byte mem d s j cs str le = IsString-get mem s cs (j - d) str le

-- `strncpy` writes the first `n` bytes of a string that does not overlap them, with zeros behind the
-- string's end, and changes no other byte.
pub strncpy-padded :
    (mem : Mem) (dst src n : ℕ) (cs : List ℕ)
    → IsString mem src cs
    → apart dst n src (length cs + 1) ≡ true
    → (j : ℕ)
    → strncpy mem dst src n j
      ≡ (if leb dst j && ltb j (dst + n) then get_or cs (j - dst) 0 else mem j)
unfolding strncpy
strncpy-padded mem dst src n cs str off j =
    let m = min n (length cs) in
    let e : src ≡ src + 0 = omega arith in
    let str' = coe 0 1 (k. IsString mem (e k) cs) str in
    ap (λ p. fill (n - p.0) (dst + p.0) 0 p.1 j)
      (strncpy_loop-forward mem dst src 0 n cs str' (ground arith))
    ∙ (fill_lem (n - (0 + m)) (dst + (0 + m)) 0 (forward mem dst src 0 m) j
        ∙ elim (Bool-cases (leb dst j && ltb j (dst + m))) [
          | inl inside ↦ ground (
            arith,
            forward_lem mem dst src 0 m j (ground arith),
            string_byte mem dst src j cs str (ground arith),
          )
          | inr outside ↦ elim (Bool-cases (leb dst j && ltb j (dst + n))) [
            | inl padding ↦ ground (arith, get_or-past cs (j - dst) 0 (ground arith))
            | inr beyond ↦ ground (arith, forward_lem mem dst src 0 m j (ground arith))
          ]
        ])

pub IsString-take :
    (mem mem' : Mem) (s s' n : ℕ) (cs : List ℕ)
    → IsString mem s cs
    → ((k : ℕ) → k < min n (length cs) → mem' (s' + k) ≡ mem (s + k))
    → mem' (s' + min n (length cs)) ≡ 0
    → IsString mem' s' (take n cs)
IsString-take mem mem' s s' zero cs str same end =
    let e : s' ≡ s' + min 0 (length cs) = omega arith in ap mem' e ∙ end
IsString-take mem mem' s s' (suc n) [] str same end =
    let e : s' ≡ s' + min (suc n) 0 = omega arith in ap mem' e ∙ end
IsString-take mem mem' s s' (suc n) (c ∷ cs) (at, nz, str) same end =
    let e : s' ≡ s' + 0 = omega arith in
    let f : s + 0 ≡ s = omega arith in
    let g : suc s' + min n (length cs) ≡ s' + min (suc n) (suc (length cs)) = omega arith in
    (
      ap mem' e ∙ (same 0 (omega arith) ∙ (ap mem f ∙ at)),
      nz,
      IsString-take mem mem' (suc s) (suc s') n cs str
          (λ k lt.
            let a : suc s' + k ≡ s' + suc k = omega arith in
            let b : s + suc k ≡ suc s + k = omega arith in
            ap mem' a ∙ (same (suc k) (omega arith) ∙ ap mem b))
          (ap mem' g ∙ end),
    )

-- The memory that `strncat` leaves, where the loop copies `m` bytes behind the string at `d`.
abbrev pub ended : Mem → ℕ → ℕ → ℕ → Mem
ended mem d src m = update (forward mem d src 0 m) (d + m) 0

ended-take :
    (mem : Mem) (d src n : ℕ) (ds : List ℕ)
    → IsString mem src ds
    → apart d n src (length ds + 1) ≡ true
    → IsString (ended mem d src (min n (length ds))) d (take n ds)
ended-take mem d src n ds str off =
    let m = min n (length ds) in
    IsString-take mem (ended mem d src m) src d n ds str
      (λ k lt.
        let e : d + k - d ≡ k = omega arith in
        ground (arith, forward_lem mem d src 0 m (d + k) (ground arith), ap (λ u. mem (src + u)) e))
      (ground arith)

-- On two strings, the second apart from the first and from the room for `n` bytes and a NUL behind
-- it, `strncat` ends, with fuel for the bytes of the first and its NUL. It appends the first `n`
-- bytes of the second, and a NUL, and changes no byte before or behind these.
pub strncat-IsString :
    (fuel : ℕ) (mem : Mem) (dst src n : ℕ) (cs ds : List ℕ)
    → IsString mem dst cs
    → IsString mem src ds
    → apart dst (length cs + (n + 1)) src (length ds + 1) ≡ true
    → length cs < fuel
    → let d = dst + length cs in
      let m = min n (length ds) in
      (mem' : Mem) × (strncat fuel mem dst src n ≡ some mem')
      × IsString mem' dst (cs ++ take n ds)
      × ((j : ℕ) → (ltb j d || ltb (d + m) j) ≡ true → mem' j ≡ mem j)
unfolding strncat
strncat-IsString fuel mem dst src n cs ds str str' off lt =
    let d = dst + length cs in
    let m = min n (length ds) in
    let e : src ≡ src + 0 = omega arith in
    let z : 0 + m ≡ m = omega arith in
    let str'' = coe 0 1 (k. IsString mem (e k) ds) str' in
    (
      ended mem d src m,
      ap (strncat_at mem dst src n) (strlen-length fuel mem dst cs str lt)
          ∙ (ap (λ p. some (update p.1 (d + p.0) 0))
                (strncpy_loop-forward mem d src 0 n ds str'' (ground arith))
              ∙ ap (λ u. some (update (forward mem d src 0 m) (d + u) 0)) z),
      IsString-append mem (ended mem d src m) dst cs (take n ds) str
          (λ k below. ground (arith, forward_lem mem d src 0 m (dst + k) (ground arith)))
          (ended-take mem d src n ds str' (ground arith)),
      λ j out. ground (arith, forward_lem mem d src 0 m j (ground arith)),
    )

-- With fuel for the bytes and the NUL `strdup` ends. In a block of that size that does not overlap
-- the string it makes the same string, and changes no byte outside the block.
pub strdup-IsString :
    (fuel : ℕ) (malloc : ℕ → Option ℕ) (mem : Mem) (s p : ℕ) (cs : List ℕ)
    → IsString mem s cs
    → length cs < fuel
    → malloc (length cs + 1) ≡ some p
    → apart p (length cs + 1) s (length cs + 1) ≡ true
    → let mem' = copied mem p s (length cs + 1) in
      (strdup fuel malloc mem s ≡ some (some p, mem')) × IsString mem' p cs
unfolding strdup memcpy
strdup-IsString fuel malloc mem s p cs str lt got off =
    let n = length cs + 1 in
    (
      ap (strdup_of malloc mem s) (strlen-length fuel mem s cs str lt)
          ∙ (ap (λ o. some (strdup_to mem s n o)) got
              ∙ ap (λ u. some (some p, u))
                  (fun_ext λ j. ground (arith, forward_lem mem p s 0 n j (ground arith)))),
      copied-IsString mem p s cs str,
    )
