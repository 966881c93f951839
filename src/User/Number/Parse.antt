-- ===== src/User/Number/Parse.antt =====
-- `strtol` on a whole string.
use exyde.Common.{
  ℕ, zero, suc, ◌+◌, ◌-◌, ◌^◌, ◌≤◌, ◌<◌, ◌≡◌, ◌≢◌, refl, ap, ap₂, sym, ◌∙◌, List, [], ◌∷◌, ◌==◌,
  if◌then◌else◌, ◌||◌, not, Option, some, none, Bool, true, false, ltb, leb, ◌&&◌, ◌*◌, ℤ, pos,
  negsuc, neg, Bool-cases, inl, inr, arith, length, drop, length-drop,
}
use exyde.Kernel.Errno.{erange}
use exyde.User.String.{Mem, IsString}
use exyde.User.String.Strings.{IsString-drop}
use exyde.User.String.Search.Spans.{span_length}
use exyde.User.String.Search.Tokens.{span-le}
use exyde.User.Number.{
  Parsed, is_space, space_loop, base_of, some_digits, digits_to, has_sign, is_negative, long_max,
  digit_val, no_digit, limit_of, finish_signed, signed_from, strtol,
}
use exyde.User.Number.Digits.{
  digits, digit-cases, digits-step, digits_value, is_digit, digit_loop-value, loop_end,
}

-- White space: a tab, a line feed, a vertical tab, a form feed, a return or a blank.
abbrev pub is_white : ℕ → Bool
is_white c = (c == 32) || (leb 9 c && leb c 13)

-- The digits of a base up to 36 as they are written: 0 to 9, then the letters of either case.
abbrev pub numeral : ℕ → ℕ
numeral d = if ltb d 10 then 48 + d else 97 + (d - 10)

abbrev pub capital : ℕ → ℕ
capital d = if ltb d 10 then 48 + d else 65 + (d - 10)

-- The digit below `n` that is written so.
unfoldable pub written_as : ℕ → ℕ → Option ℕ
written_as zero c = none
written_as (suc d) c =
    let rest = written_as d c in if (c == numeral d) || (c == capital d) then some d else rest

-- The digits at the front of a list, and the number that digits write.
abbrev pub onto : Option ℕ → List ℕ → List ℕ
onto none ds = []
onto (some d) ds = d ∷ ds

abbrev pub front_digits : ℕ → List ℕ → List ℕ
front_digits base [] = []
front_digits base (c ∷ cs) = onto (written_as base c) (front_digits base cs)

abbrev pub number_of : ℕ → ℕ → List ℕ → ℕ
number_of base acc [] = acc
number_of base acc (d ∷ ds) = number_of base (acc * base + d) ds

-- `digit_val` reads the digits as they are written.
abbrev below : ℤ → ℕ → Option ℕ
below (pos d) n = if ltb d n then some d else none
below (negsuc d) n = none

-- A byte that is written as `d` has that value, and one with another value or none is not.
abbrev has_value : ℤ → ℕ → Bool
has_value (pos v) d = v == d
has_value (negsuc v) d = false

has_value-digit_val :
    (c d : ℕ) → d < 36 → ((c == numeral d) || (c == capital d)) ≡ has_value (digit_val c) d
has_value-digit_val c d lt = elim (Bool-cases (leb 48 c && leb c 57)) [
  | inl decimal ↦ rw decimal (ground arith)
  | inr other ↦ elim (Bool-cases (leb 97 c && leb c 122)) [
    | inl lower ↦ rw (other, lower) (ground arith)
    | inr not_lower ↦ elim (Bool-cases (leb 65 c && leb c 90)) [
      | inl upper ↦ rw (other, not_lower, upper) (ground arith)
      | inr none_left ↦ rw (other, not_lower, none_left) (ground arith)
    ]
  ]
]

below-suc : (z : ℤ) (d : ℕ) → below z (suc d) ≡ (if has_value z d then some d else below z d)
below-suc (pos v) d = elim (Bool-cases (v == d)) [
  | inl same ↦ let e : v ≡ d = ground arith in rw e (ground arith)
  | inr other ↦ ground arith
]
below-suc (negsuc v) d = refl

written_as-digit_val : (n c : ℕ) → n ≤ 36 → written_as n c ≡ below (digit_val c) n
unfolding written_as
written_as-digit_val zero c le = below_zero (digit_val c)
  where
    below_zero : (z : ℤ) → none ≡ below z 0
    below_zero (pos d) = ground arith
    below_zero (negsuc d) = refl
written_as-digit_val (suc n) c le =
    ap₂ (λ b (o : Option ℕ). if b then some n else o) (has_value-digit_val c n (omega arith))
      (written_as-digit_val n c (omega arith))
    ∙ sym (below-suc (digit_val c) n)

front_digits-digits :
    (base acc : ℕ) (cs : List ℕ)
    → base ≤ 36
    → (span_length (is_digit base) cs ≡ length (front_digits base cs))
      × (digits_value base acc (digits base cs) ≡ number_of base acc (front_digits base cs))
front_digits-digits base acc [] le = (refl, refl)
front_digits-digits base acc (c ∷ cs) le =
    let w = written_as-digit_val base c le in
    elim (digit-cases (digit_val c) base) [
      | inl none_left ↦
          let e : written_as base c ≡ none = w ∙ below_none (digit_val c) base none_left in
          rw (none_left, e) (refl, refl)
      | inr (d, is_d, small) ↦
          let low : ltb d base ≡ true = ground arith in
          let e : written_as base c ≡ some d =
            w ∙ (ap (λ z. below z base) is_d ∙ ap (λ b. if b then some d else none) low) in
          let (span, value) = digits-step base acc c d cs is_d small in
          let (n, v) = front_digits-digits base (acc * base + d) cs le in
          rw e (span ∙ ap suc n, value ∙ v)
    ]
  where
    below_none : (z : ℤ) (base : ℕ) → no_digit z base ≡ true → below z base ≡ none
    below_none (pos d) base o = ground arith
    below_none (negsuc d) base o = refl

-- The bytes behind the white space, their sign, and the bytes behind it.
abbrev pub unspaced : List ℕ → List ℕ
unspaced cs = drop (span_length is_white cs) cs

abbrev pub sign_length : List ℕ → ℕ
sign_length [] = 0
sign_length (c ∷ cs) = if (c == 43) || (c == 45) then 1 else 0

abbrev pub minus : List ℕ → Bool
minus [] = false
minus (c ∷ cs) = c == 45

abbrev pub unsigned : List ℕ → List ℕ
unsigned cs = drop (sign_length cs) cs

-- The integer of this sign and magnitude, or the nearest that is a `long`.
abbrev pub to_long : Bool → ℕ → ℤ
to_long negative v =
    if negative
    then (if ltb (2 ^ 63) v then negsuc (2 ^ 63 - 1) else neg v)
    else if ltb (2 ^ 63 - 1) v
    then pos (2 ^ 63 - 1)
    else pos v

space_loop-span :
    (fuel : ℕ) (mem : Mem) (s : ℕ) (cs : List ℕ)
    → IsString mem s cs
    → length cs < fuel
    → space_loop fuel mem s ≡ some (s + span_length is_white cs)
unfolding space_loop
space_loop-span zero mem s cs str lt = absurd (omega arith)
space_loop-span (suc fuel) mem s [] str lt = let e : s ≡ s + 0 = omega arith in rw str (ap some e)
space_loop-span (suc fuel) mem s (c ∷ cs) (at, nz, str) lt = elim (Bool-cases (is_white c)) [
  | inl y ↦
      let same : is_space c ≡ true = ground arith in
      let e : suc s + span_length is_white cs ≡ s + suc (span_length is_white cs) = omega arith in
      rw (at, y, same) (space_loop-span fuel mem (suc s) cs str (omega arith) ∙ ap some e)
  | inr o ↦
      let same : is_space c ≡ false = ground arith in
      let e : s ≡ s + 0 = omega arith in rw (at, o, same) (ap some e)
]

sign-le : (cs : List ℕ) → sign_length cs ≤ length cs
sign-le [] = omega arith
sign-le (c ∷ cs) = ground arith

-- The sign, as the code reads it.
read_sign :
    (mem : Mem) (p : ℕ) (cs : List ℕ)
    → IsString mem p cs
    → (is_negative mem p ≡ minus cs) × ((if has_sign mem p then suc p else p) ≡ p + sign_length cs)
read_sign mem p [] str = (ground (arith, str), ground (arith, str))
read_sign mem p (c ∷ cs) (at, nz, str) = (ground (arith, at), ground (arith, at))

base_of-plain :
    (mem : Mem) (p base : ℕ)
    → 2 ≤ base
    → base ≤ 36
    → base ≢ 16
    → base_of mem p (pos base) ≡ some (base, p)
unfolding base_of
base_of-plain mem p base low high ne = ground arith

-- What `strtol` returns for the sign and the value of `n` digits behind `p`.
abbrev pub long_result : ℕ → ℕ → Bool → ℕ → ℕ → Parsed ℤ
long_result s p negative n v = record {
  value = to_long negative v;
  end = if n == 0 then s else p + n;
  errno = if ltb (if negative then 2 ^ 63 else 2 ^ 63 - 1) v then some erange else none;
}

negative_value :
    (v acc : ℕ)
    → (v ≤ long_max + 1 → acc ≡ v)
    → (if ltb (long_max + 1) v
        then negsuc long_max
        else if acc == long_max + 1
        then negsuc long_max
        else neg acc)
      ≡ to_long true v
negative_value v acc val = elim (Bool-cases (ltb (long_max + 1) v)) [
  | inl over ↦ rw over refl
  | inr fits ↦
      let same : acc ≡ v = val (ground arith) in
      rw (fits, same)
        (elim (Bool-cases (v == long_max + 1)) [
          | inl least ↦ let e : v ≡ long_max + 1 = ground arith in rw e refl
          | inr more ↦ rw more refl
        ])
]

positive_value :
    (v acc : ℕ)
    → (v ≤ long_max → acc ≡ v)
    → (if ltb long_max v then pos long_max else pos acc) ≡ to_long false v
positive_value v acc val = elim (Bool-cases (ltb long_max v)) [
  | inl over ↦ rw over refl
  | inr fits ↦ let same : acc ≡ v = val (ground arith) in rw (fits, same) refl
]

finish-long :
    (s p : ℕ) (negative : Bool) (n v acc : ℕ)
    → (v ≤ limit_of negative → acc ≡ v)
    → finish_signed s negative (some_digits (loop_end (limit_of negative) p acc false n v))
      ≡ some (long_result s p negative n v)
finish-long s p true n v acc val =
    let end : (if not (n == 0) then p + n else s) ≡ (if n == 0 then s else p + n) = ground arith in
    ap₂
      (λ x y. some (record {
        value = x;
        end = y;
        errno = if ltb (limit_of true) v then some erange else none;
      }))
      (negative_value v acc val) end
finish-long s p false n v acc val =
    let end : (if not (n == 0) then p + n else s) ≡ (if n == 0 then s else p + n) = ground arith in
    ap₂
      (λ x y. some (record {
        value = x;
        end = y;
        errno = if ltb (limit_of false) v then some erange else none;
      }))
      (positive_value v acc val) end

strtol-value :
    (fuel : ℕ) (mem : Mem) (s base : ℕ) (cs : List ℕ)
    → IsString mem s cs
    → length cs < fuel
    → 2 ≤ base
    → base ≤ 36
    → base ≢ 16
    → let a = span_length is_white cs in
      let r = unspaced cs in
      let n = span_length (is_digit base) (unsigned r) in
      let v = digits_value base 0 (digits base (unsigned r)) in
      strtol fuel mem s (pos base) ≡ some (long_result s (s + a + sign_length r) (minus r) n v)
unfolding strtol
strtol-value fuel mem s base cs str lt low high ne =
    let a = span_length is_white cs in
    let r = unspaced cs in
    let p = s + a in
    let p' = p + sign_length r in
    let n = span_length (is_digit base) (unsigned r) in
    let v = digits_value base 0 (digits base (unsigned r)) in
    let space = span-le is_white cs in
    let sign = sign-le r in
    let str' = IsString-drop mem s a cs str space in
    let str'' = IsString-drop mem p (sign_length r) r str' sign in
    let (neg_eq, p_eq) = read_sign mem p r str' in
    let limit = limit_of (minus r) in
    let fits : limit < 2 ^ 64 = ground arith in
    let (acc, run, val) =
      digit_loop-value fuel mem base limit p' 0 false (unsigned r) str''
        (omega (arith, length-drop (sign_length r) r, length-drop a cs)) (omega arith) fits
        (omega arith) in
    ap (signed_from fuel mem s (pos base)) (space_loop-span fuel mem s cs str lt)
    ∙ (ap₂ (λ b q. finish_signed s b (digits_to fuel mem (limit_of b) (base_of mem q (pos base))))
          neg_eq p_eq
        ∙ (ap (λ o. finish_signed s (minus r) (digits_to fuel mem limit o))
              (base_of-plain mem p' base low high ne)
            ∙ (ap (λ o. finish_signed s (minus r) (some_digits o)) run
                ∙ finish-long s p' (minus r) n v acc val)))

-- On a string, in a base from 2 to 36 other than 16, and with fuel for its bytes and the NUL,
-- `strtol` ends. It skips white space and a sign, and returns the number that the digits which
-- follow write or, with ERANGE, the `long` that is nearest to it; the end is behind the last digit,
-- or the whole string's start where there is none.
pub strtol-number_of :
    (fuel : ℕ) (mem : Mem) (s base : ℕ) (cs : List ℕ)
    → IsString mem s cs
    → length cs < fuel
    → 2 ≤ base
    → base ≤ 36
    → base ≢ 16
    → let a = span_length is_white cs in
      let r = unspaced cs in
      let ds = front_digits base (unsigned r) in
      strtol fuel mem s (pos base)
      ≡ some (long_result s (s + a + sign_length r) (minus r) (length ds) (number_of base 0 ds))
strtol-number_of fuel mem s base cs str lt low high ne =
    let r = unspaced cs in
    let (n, v) = front_digits-digits base 0 (unsigned r) high in
    strtol-value fuel mem s base cs str lt low high ne
    ∙ ap₂ (λ n v. some (long_result s (s + span_length is_white cs + sign_length r) (minus r) n v))
        n v
