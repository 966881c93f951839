-- ===== src/User/Sort/Search.antt =====
-- `bsearch` on an array that is sorted for the key.
use exyde.Common.{
  ℕ, zero, suc, ◌+◌, ◌-◌, ◌*◌, ◌/◌, ◌<◌, ◌≤◌, ◌≡◌, refl, ap, ◌∙◌, sym, ◌==◌, if◌then◌else◌, ◌||◌,
  not, Option, some, none, true, false, ltb, ℤ, pos, negsuc, arith, Bool-cases, inl, inr,
}
use native.Mathlib.Nat.{mul-div_left, mul-le-mul_right}
use exyde.User.Sort.{is_zero, is_neg, bsearch_loop, bsearch}

module _ (compar : ℕ → ℤ) (base size : ℕ) where
  -- The comparison with the element of this index.
  abbrev pub at : ℕ → ℤ
  at i = compar (base + i * size)

  -- Before an element that is smaller than the key or equal to it no element is greater, and behind
  -- one that is greater every element is.
  pub record IsSorted (nmemb : ℕ) : Type 0 where
    pub greater : (i j : ℕ) → i ≤ j → j < nmemb → is_neg (at i) ≡ true → is_neg (at j) ≡ true
    pub smaller :
        (i j : ℕ)
        → i ≤ j
        → j < nmemb
        → is_neg (at j) ≡ false
        → is_zero (at j) ≡ false
        → (is_neg (at i) ≡ false) × (is_zero (at i) ≡ false)

  -- An element that equals the key, or none of them does.
  abbrev pub Found : ℕ → Option ℕ → Type 0
  Found nmemb none = (i : ℕ) → i < nmemb → is_zero (at i) ≡ false
  Found nmemb (some p) = (i : ℕ) × (i < nmemb) × (p ≡ base + i * size) × (is_zero (at i) ≡ true)

  zero-not_neg : (c : ℤ) → is_neg c ≡ true → is_zero c ≡ false
  zero-not_neg (pos n) h = ground arith
  zero-not_neg (negsuc n) h = refl

  -- The address of an index.
  abbrev pub elt : ℕ → ℕ
  elt i = base + i * size

  elt-lt : (l h : ℕ) → 0 < size → ltb (elt l) (elt h) ≡ ltb l h
  elt-lt l h sz = elim (Bool-cases (ltb l h)) [
    | inl lt ↦
        let one = mul-le-mul_right size (let s : suc l ≤ h = ground arith in s) in
        let e : suc l * size ≡ l * size + size = grind arith in ground (arith, one, e)
    | inr ge ↦
        let le = mul-le-mul_right size (let s : h ≤ l = ground arith in s) in ground (arith, le)
  ]

  elt-distance : (l h : ℕ) → 0 < size → l ≤ h → (elt h - elt l) / size ≡ h - l
  elt-distance l h sz le =
      let d : (h - l) * size + l * size ≡ h * size =
        let e : h - l + l ≡ h = omega arith in grind (arith, ap (λ u. u * size) e) in
      let dist : elt h - elt l ≡ (h - l) * size = omega (arith, d) in
      ap (λ u. u / size) dist ∙ mul-div_left (h - l) sz

  middle : ℕ → ℕ → ℕ
  middle l h = l + (h - l) / 2

  -- One round of the loop, on indices.
  bsearch_loop-round :
      (fuel l h : ℕ)
      → 0 < size
      → l ≤ h
      → let m = middle l h in
        let left = is_neg (at m) in
        bsearch_loop (suc fuel) compar size (elt l) (elt h) ≡ (
          if not (ltb l h)
          then some none
          else if is_zero (at m)
          then some (some (elt m))
          else bsearch_loop fuel compar size
              (if left then elt l else elt (suc m))
              (if left then elt m else elt h))
  unfolding bsearch_loop middle
  bsearch_loop-round fuel l h sz le =
      let m = middle l h in
      let mid : elt l + (h - l) / 2 * size ≡ elt m = grind arith in
      let next : elt m + size ≡ elt (suc m) = grind arith in
      rw (elt-lt l h sz, elt-distance l h sz le, mid, next) refl

  -- The range from the index `l` to `h`, outside of which there is no equal element.
  bsearch_loop-Found :
      (nmemb fuel l h : ℕ)
      → 0 < size
      → IsSorted nmemb
      → l ≤ h
      → h ≤ nmemb
      → h - l < fuel
      → ((i : ℕ) → i < nmemb → (ltb i l || not (ltb i h)) ≡ true → is_zero (at i) ≡ false)
      → (r : Option ℕ) × (bsearch_loop fuel compar size (elt l) (elt h) ≡ some r) × Found nmemb r
  unfolding middle
  bsearch_loop-Found nmemb zero l h sz sorted le le' lt out = absurd (omega arith)
  bsearch_loop-Found nmemb (suc fuel) l h sz sorted le le' lt out =
      let m = middle l h in
      let round = bsearch_loop-round fuel l h sz le in
      elim (Bool-cases (ltb l h)) [
        | inr empty ↦ (none, round ∙ rw empty refl, λ i li. out i li (ground arith))
        | inl some_left ↦ elim (Bool-cases (is_zero (at m))) [
          | inl hit ↦ (some (elt m), round ∙ rw (some_left, hit) refl, (m, ground arith, refl, hit))
          | inr miss ↦ elim (Bool-cases (is_neg (at m))) [
            | inl left ↦
                let go : bsearch_loop (suc fuel) compar size (elt l) (elt h)
                    ≡ bsearch_loop fuel compar size (elt l) (elt m) =
                  round ∙ rw (some_left, miss, left) refl in
                let (r, eq, found) =
                  bsearch_loop-Found nmemb fuel l m sz sorted (omega arith) (ground arith)
                    (ground arith)
                    (λ i li away. elim (Bool-cases (ltb i l)) [
                      | inl before ↦ out i li (ground arith)
                      | inr behind ↦ zero-not_neg (at i) (sorted.greater m i (ground arith) li left)
                    ]) in
                (r, go ∙ eq, found)
            | inr right ↦
                let go : bsearch_loop (suc fuel) compar size (elt l) (elt h)
                    ≡ bsearch_loop fuel compar size (elt (suc m)) (elt h) =
                  round ∙ rw (some_left, miss, right) refl in
                let (r, eq, found) =
                  bsearch_loop-Found nmemb fuel (suc m) h sz sorted (ground arith) le'
                    (ground arith)
                    (λ i li away. elim (Bool-cases (ltb i h)) [
                      | inr behind ↦ out i li (ground arith)
                      | inl before ↦ (sorted.smaller i m (ground arith) (ground arith) right miss).1
                    ]) in
                (r, go ∙ eq, found)
          ]
        ]
      ]

  -- On a sorted array `bsearch` ends within its fuel, with the address of an element that equals the
  -- key, or with NULL if there is none.
  pub bsearch-Found :
      (nmemb : ℕ)
      → 0 < size
      → IsSorted nmemb
      → (r : Option ℕ) × (bsearch compar base nmemb size ≡ some r) × Found nmemb r
  unfolding bsearch
  bsearch-Found nmemb sz sorted = elim (Bool-cases (nmemb == 0)) [
    | inl empty ↦
        let some_size : (size == 0) ≡ false = ground arith in
        (none, rw (some_size, empty) refl, λ i lt. absurd (ground arith))
    | inr more ↦
        let some_size : (size == 0) ≡ false = ground arith in
        let start : base + 0 * size ≡ base = grind arith in
        let (r, eq, found) =
          bsearch_loop-Found nmemb (suc nmemb) 0 nmemb sz sorted (omega arith) (omega arith)
            (omega arith) (λ i li away. absurd (ground arith)) in
        (
          r,
          rw (some_size, more)
              (ap (λ u. bsearch_loop (suc nmemb) compar size u (base + nmemb * size)) (sym start)
                ∙ eq),
          found,
        )
  ]
