-- ===== src/User/Number/Digits.antt =====
-- The loop over the digits, and its test against the limit.
use exyde.Common.{
  ℕ, zero, suc, ◌+◌, ◌*◌, ◌/◌, ◌%◌, ◌^◌, ◌≤◌, ◌<◌, ◌≡◌, ◌⊎◌, refl, ap, ap₂, ltb→lt, ◌∙◌, sym, List,
  [], ◌∷◌, ◌==◌, if◌then◌else◌, ◌||◌, not, Option, some, Bool, true, false, ltb, leb, ℤ, pos,
  negsuc, Bool-cases, inl, inr, arith, length, take,
}
use native.Mathlib.Nat.{div-add-mod', mod-lt, mul-le-mul_right, mod-eq_of_lt}
use exyde.User.String.{Mem, IsString}
use exyde.User.String.Search.Spans.{span_length}
use exyde.User.Number.{digit_val, no_digit, too_large, digit_loop}

abbrev pub magnitude : ℤ → ℕ
magnitude (pos d) = d
magnitude (negsuc d) = 0

abbrev pub is_digit : ℕ → ℕ → Bool
is_digit base c = not (no_digit (digit_val c) base)

-- The number that a list of digits adds to, from `acc` on.
abbrev pub digits_value : ℕ → ℕ → List ℕ → ℕ
digits_value base acc [] = acc
digits_value base acc (c ∷ cs) = digits_value base (acc * base + magnitude (digit_val c)) cs

-- The digits at the front of a list.
abbrev pub digits : ℕ → List ℕ → List ℕ
digits base cs = take (span_length (is_digit base) cs) cs

pub digit-cases :
    (z : ℤ) (base : ℕ) → (no_digit z base ≡ true) ⊎ ((d : ℕ) × (z ≡ pos d) × (d < base))
digit-cases (negsuc d) base = inl refl
digit-cases (pos d) base = elim (Bool-cases (leb base d)) [
  | inl y ↦ inl y
  | inr o ↦ inr (d, refl, ground arith)
]

-- The test before the addition tells if the limit is exceeded, without an overflow.
too_large-limit :
    (limit base acc d : ℕ)
    → d < base
    → too_large acc (limit / base) (limit % base) (pos d) ≡ ltb limit (acc * base + d)
too_large-limit limit base acc d lt =
    let q = limit / base in
    let whole = div-add-mod' limit base in
    let small : limit % base < base = mod-lt limit (omega arith) in
    elim (Bool-cases (ltb acc q)) [
      | inl below ↦
          let h : suc acc ≤ q = ground arith in
          let m = mul-le-mul_right base h in
          let e : suc acc * base ≡ acc * base + base = grind arith in ground (arith, m, e, whole)
      | inr up ↦ elim (Bool-cases (acc == q)) [
        | inl same ↦
            let h : acc ≡ q = ground arith in
            let m : acc * base ≡ q * base = ap (λ u. u * base) h in ground (arith, m, whole)
        | inr above ↦
            let h : suc q ≤ acc = ground arith in
            let m = mul-le-mul_right base h in
            let e : suc q * base ≡ q * base + base = grind arith in ground (arith, m, e, whole)
      ]
    ]

digits_value-ge : (base acc : ℕ) (cs : List ℕ) → 1 ≤ base → acc ≤ digits_value base acc cs
digits_value-ge base acc [] le = omega arith
digits_value-ge base acc (c ∷ cs) le =
    let m = mul-le-mul_right acc le in
    let e : 1 * acc ≡ acc = grind arith in
    let f : base * acc ≡ acc * base = grind arith in
    let next = digits_value-ge base (acc * base + magnitude (digit_val c)) cs le in
    omega (arith, m, e, f, next)

-- Behind an overflow the loop only skips digits.
digit_loop-overflow :
    (fuel : ℕ) (mem : Mem) (base cutoff cutlim p acc : ℕ) (any : Bool) (cs : List ℕ)
    → IsString mem p cs
    → length cs < fuel
    → let n = span_length (is_digit base) cs in
      digit_loop fuel mem base cutoff cutlim p acc true any
      ≡ some (p + n, acc, true, any || not (n == 0))
unfolding digit_loop
digit_loop-overflow zero mem base cutoff cutlim p acc any cs str lt = absurd (omega arith)
digit_loop-overflow (suc fuel) mem base cutoff cutlim p acc any [] str lt =
    let e : p ≡ p + 0 = omega arith in
    let f : any ≡ (any || false) = ground arith in
    rw str (ap (λ u. some (u, acc, true, any)) e ∙ ap (λ u. some (p + 0, acc, true, u)) f)
digit_loop-overflow (suc fuel) mem base cutoff cutlim p acc any (c ∷ cs) (at, nz, str) lt =
    elim (digit-cases (digit_val c) base) [
      | inl none_left ↦
          let e : p ≡ p + 0 = omega arith in
          let f : any ≡ (any || false) = ground arith in
          rw (at, none_left)
            (ap (λ u. some (u, acc, true, any)) e ∙ ap (λ u. some (p + 0, acc, true, u)) f)
      | inr (d, is_d, small) ↦
          let more : leb base d ≡ false = ground arith in
          let n = span_length (is_digit base) cs in
          let e : suc p + n ≡ p + suc n = omega arith in
          let f : true ≡ (any || not (suc n == 0)) = ground arith in
          rw (at, is_d, more)
            (digit_loop-overflow fuel mem base cutoff cutlim (suc p) acc true cs str (omega arith)
              ∙ (ap (λ u. some (u, acc, true, true)) e
                  ∙ ap (λ u. some (p + suc n, acc, true, u)) f))
    ]

pub digits-step :
    (base acc c d : ℕ) (cs : List ℕ)
    → digit_val c ≡ pos d
    → d < base
    → (span_length (is_digit base) (c ∷ cs) ≡ suc (span_length (is_digit base) cs))
      × (digits_value base acc (digits base (c ∷ cs))
          ≡ digits_value base (acc * base + d) (digits base cs))
digits-step base acc c d cs is_d small =
    let more : is_digit base c ≡ true = rw is_d (ground arith) in
    let n = span_length (is_digit base) cs in
    (
      rw more refl,
      ap (λ b. digits_value base acc (take (if b then suc n else 0) (c ∷ cs))) more
          ∙ ap (λ z. digits_value base (acc * base + magnitude z) (digits base cs)) is_d,
    )

-- The end of the loop behind `n` digits with the value `v`.
abbrev pub loop_end : ℕ → ℕ → ℕ → Bool → ℕ → ℕ → Option (ℕ × ℕ × Bool × Bool)
loop_end limit p acc any n v = some (p + n, acc, ltb limit v, any || not (n == 0))

-- On a string the loop ends behind the digits at its front. It tells if their value exceeds the
-- limit, and if not it has computed it.
pub digit_loop-value :
    (fuel : ℕ) (mem : Mem) (base limit p acc : ℕ) (any : Bool) (cs : List ℕ)
    → IsString mem p cs
    → length cs < fuel
    → 1 ≤ base
    → limit < 2 ^ 64
    → acc ≤ limit
    → let n = span_length (is_digit base) cs in
      let v = digits_value base acc (digits base cs) in
      (acc' : ℕ) × (digit_loop fuel mem base (limit / base) (limit % base) p acc false any
        ≡ loop_end limit p acc' any n v)
      × (v ≤ limit → acc' ≡ v)
unfolding digit_loop
digit_loop-value zero mem base limit p acc any cs str lt pos_base word le = absurd (omega arith)
digit_loop-value (suc fuel) mem base limit p acc any [] str lt pos_base word le =
    let e : p ≡ p + 0 = omega arith in
    let f : any ≡ (any || false) = ground arith in
    let g : false ≡ ltb limit acc = ground arith in
    (
      acc,
      rw str (
          ap (λ u. some (u, acc, false, any)) e
          ∙ (ap (λ u. some (p + 0, acc, false, u)) f
              ∙ ap (λ u. some (p + 0, acc, u, any || false)) g)),
      λ h. refl,
    )
digit_loop-value (suc fuel) mem base limit p acc any (c ∷ cs) (at, nz, str) lt pos_base word le =
    elim (digit-cases (digit_val c) base) [
      | inl none_left ↦
          let e : p ≡ p + 0 = omega arith in
          let f : any ≡ (any || false) = ground arith in
          let g : false ≡ ltb limit acc = ground arith in
          (
            acc,
            rw (at, none_left)
                (ap (λ u. some (u, acc, false, any)) e
                  ∙ (ap (λ u. some (p + 0, acc, false, u)) f
                      ∙ ap (λ u. some (p + 0, acc, u, any || false)) g)),
            λ h. rw none_left refl,
          )
      | inr (d, is_d, small) ↦
          let more : leb base d ≡ false = ground arith in
          let n = span_length (is_digit base) cs in
          let e : suc p + n ≡ p + suc n = omega arith in
          let f : true ≡ (any || not (suc n == 0)) = ground arith in
          let (span, value) = digits-step base acc c d cs is_d small in
          let end = λ (x : ℕ). ap₂ (loop_end limit p x any) (sym span) (sym value) in
          let test = too_large-limit limit base acc d small in
          elim (Bool-cases (ltb limit (acc * base + d))) [
            | inl large ↦
                let v = digits_value base (acc * base + d) (digits base cs) in
                let ge = digits_value-ge base (acc * base + d) (digits base cs) pos_base in
                let over : true ≡ ltb limit v = ground arith in
                let run : digit_loop (suc fuel) mem base (limit / base) (limit % base) p acc false
                      any
                    ≡ some (p + suc n, acc, ltb limit v, any || not (suc n == 0)) =
                  rw (at, is_d, more, test ∙ large)
                    (digit_loop-overflow fuel mem base (limit / base) (limit % base) (suc p) acc
                        true cs str (omega arith)
                      ∙ (ap (λ u. some (u, acc, true, true)) e
                          ∙ (ap (λ u. some (p + suc n, acc, true, u)) f
                              ∙ ap (λ u. some (p + suc n, acc, u, any || not (suc n == 0)))
                                  over))) in
                (
                  acc,
                  run ∙ end acc,
                  λ h. absurd (omega (arith, value, ge, ltb→lt limit (acc * base + d) large)),
                )
            | inr fits ↦
                let low : acc * base + d ≤ limit = ground arith in
                let same : (acc * base + d) % 2 ^ 64 ≡ acc * base + d =
                  mod-eq_of_lt (omega arith) in
                let v = digits_value base (acc * base + d) (digits base cs) in
                let (acc', eq, val) =
                  digit_loop-value fuel mem base limit (suc p) (acc * base + d) true cs str
                    (omega arith) pos_base word low in
                let run : digit_loop (suc fuel) mem base (limit / base) (limit % base) p acc false
                      any
                    ≡ some (p + suc n, acc', ltb limit v, any || not (suc n == 0)) =
                  rw (at, is_d, more, test ∙ fits, same)
                    (eq
                      ∙ (ap (λ u. some (u, acc', ltb limit v, true)) e
                          ∙ ap (λ u. some (p + suc n, acc', ltb limit v, u)) f)) in
                (acc', run ∙ end acc', λ h. val (omega (arith, value)) ∙ sym value)
          ]
    ]
