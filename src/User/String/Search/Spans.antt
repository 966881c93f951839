-- ===== src/User/String/Search/Spans.antt =====
-- Spans of a string: `strspn`, `strcspn`, `strpbrk`.
use exyde.Common.{
  ℕ, zero, suc, ◌+◌, ◌<◌, ◌≡◌, refl, ap, ◌∙◌, List, [], ◌∷◌, ◌==◌, if◌then◌else◌, ◌||◌, Option,
  some, none, Bool, false, not, arith, length, Bool-cases, inl, inr,
}
use exyde.User.String.{Mem, IsString}
use exyde.User.String.Search.{
  is_in, strpbrk_loop, strpbrk, strspn_loop, strspn, strcspn_loop, strcspn, skip_loop,
}

abbrev pub member : ℕ → List ℕ → Bool
member x [] = false
member x (c ∷ cs) = (c == x) || member x cs

-- The length of the longest prefix whose bytes all pass the test.
abbrev pub span_length : (ℕ → Bool) → List ℕ → ℕ
span_length test [] = 0
span_length test (c ∷ cs) = if test c then suc (span_length test cs) else 0

-- The address of the first byte of a list at `s` that passes the test.
abbrev pub first_address : (ℕ → Bool) → ℕ → List ℕ → Option ℕ
first_address test s [] = none
first_address test s (c ∷ cs) = if test c then some s else first_address test (suc s) cs

pub is_in-member :
    (fuel : ℕ) (mem : Mem) (a x : ℕ) (ds : List ℕ)
    → IsString mem a ds
    → length ds < fuel
    → is_in fuel mem a x ≡ some (member x ds)
unfolding is_in
is_in-member zero mem a x ds str lt = absurd (omega arith)
is_in-member (suc fuel) mem a x [] str lt = ground arith
is_in-member (suc fuel) mem a x (d ∷ ds) (at, nz, str) lt =
    ground (arith, is_in-member fuel mem (suc a) x ds str (omega arith))

module _ (fuel : ℕ) (mem : Mem) (a : ℕ) (ds : List ℕ) (set : IsString mem a ds)
    (enough : length ds < fuel) where
  strspn_loop-span :
      (k s n : ℕ) (cs : List ℕ)
      → IsString mem (s + n) cs
      → length cs < k
      → strspn_loop fuel k mem s a n ≡ some (n + span_length (λ c. member c ds) cs)
  unfolding strspn_loop
  strspn_loop-span zero s n cs str lt = absurd (omega arith)
  strspn_loop-span (suc k) s n [] str lt =
      let e : n + 0 ≡ n = omega arith in ground (arith, ap some e)
  strspn_loop-span (suc k) s n (c ∷ cs) (at, nz, str) lt =
      let e : suc (s + n) ≡ s + suc n = omega arith in
      let str' = coe 0 1 (k. IsString mem (e k) cs) str in
      let z : (mem (s + n) == 0) ≡ false = ground arith in
      let f : suc n + span_length (λ c. member c ds) cs
          ≡ n + suc (span_length (λ c. member c ds) cs) =
        omega arith in
      let g : n ≡ n + 0 = omega arith in
      rw (z, is_in-member fuel mem a (mem (s + n)) ds set enough, at)
        (elim (Bool-cases (member c ds)) [
          | inl y ↦ rw y (strspn_loop-span k s (suc n) cs str' (omega arith) ∙ ap some f)
          | inr o ↦ rw o (ap some g)
        ])

  strcspn_loop-span :
      (k s n : ℕ) (cs : List ℕ)
      → IsString mem (s + n) cs
      → length cs < k
      → strcspn_loop fuel k mem s a n ≡ some (n + span_length (λ c. not (member c ds)) cs)
  unfolding strcspn_loop
  strcspn_loop-span zero s n cs str lt = absurd (omega arith)
  strcspn_loop-span (suc k) s n [] str lt =
      let e : n + 0 ≡ n = omega arith in ground (arith, ap some e)
  strcspn_loop-span (suc k) s n (c ∷ cs) (at, nz, str) lt =
      let m = span_length (λ c'. not (member c' ds)) cs in
      let e : suc (s + n) ≡ s + suc n = omega arith in
      let str' = coe 0 1 (k. IsString mem (e k) cs) str in
      let z : (mem (s + n) == 0) ≡ false = ground arith in
      let f : suc n + m ≡ n + suc m = omega arith in
      let g : n ≡ n + 0 = omega arith in
      rw (z, is_in-member fuel mem a (mem (s + n)) ds set enough, at)
        (elim (Bool-cases (member c ds)) [
          | inl y ↦ rw y (ap some g)
          | inr o ↦ rw o (strcspn_loop-span k s (suc n) cs str' (omega arith) ∙ ap some f)
        ])

  strpbrk_loop-first :
      (k s : ℕ) (cs : List ℕ)
      → IsString mem s cs
      → length cs < k
      → strpbrk_loop fuel k mem s a ≡ some (first_address (λ c. member c ds) s cs)
  unfolding strpbrk_loop
  strpbrk_loop-first zero s cs str lt = absurd (omega arith)
  strpbrk_loop-first (suc k) s [] str lt = ground arith
  strpbrk_loop-first (suc k) s (c ∷ cs) (at, nz, str) lt =
      let z : (mem s == 0) ≡ false = ground arith in
      rw (z, is_in-member fuel mem a (mem s) ds set enough, at)
        (elim (Bool-cases (member c ds)) [
          | inl y ↦ rw y refl
          | inr o ↦ rw o (strpbrk_loop-first k (suc s) cs str (omega arith))
        ])

  pub skip_loop-span :
      (k s : ℕ) (cs : List ℕ)
      → IsString mem s cs
      → length cs < k
      → skip_loop fuel k mem s a ≡ some (s + span_length (λ c. member c ds) cs)
  unfolding skip_loop
  skip_loop-span zero s cs str lt = absurd (omega arith)
  skip_loop-span (suc k) s [] str lt = let e : s ≡ s + 0 = omega arith in ground (arith, ap some e)
  skip_loop-span (suc k) s (c ∷ cs) (at, nz, str) lt =
      let m = span_length (λ c'. member c' ds) cs in
      let z : (mem s == 0) ≡ false = ground arith in
      let f : suc s + m ≡ s + suc m = omega arith in
      let g : s ≡ s + 0 = omega arith in
      rw (z, is_in-member fuel mem a (mem s) ds set enough, at)
        (elim (Bool-cases (member c ds)) [
          | inl y ↦ rw y (skip_loop-span k (suc s) cs str (omega arith) ∙ ap some f)
          | inr o ↦ rw o (ap some g)
        ])

  -- On two strings, with fuel for the bytes of each and a NUL, the three searches end. `strspn` and
  -- `strcspn` return the length of the longest prefix of bytes in the set and outside it, and
  -- `strpbrk` the address of the first byte in it.
  pub spans-length :
      (s : ℕ) (cs : List ℕ)
      → IsString mem s cs
      → length cs < fuel
      → (strspn fuel mem s a ≡ some (span_length (λ c. member c ds) cs))
        × (strcspn fuel mem s a ≡ some (span_length (λ c. not (member c ds)) cs))
        × (strpbrk fuel mem s a ≡ some (first_address (λ c. member c ds) s cs))
  spans-length s cs str lt =
      let e : s ≡ s + 0 = omega arith in
      let str' = coe 0 1 (k. IsString mem (e k) cs) str in
      let z = λ (m : ℕ). let f : 0 + m ≡ m = omega arith in f in
      (
        strspn_loop-span fuel s 0 cs str' lt ∙ ap some (z (span_length (λ c. member c ds) cs)),
        strcspn_loop-span fuel s 0 cs str' lt
            ∙ ap some (z (span_length (λ c. not (member c ds)) cs)),
        strpbrk_loop-first fuel s cs str lt,
      )
