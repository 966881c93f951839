-- ===== src/User/Number.antt =====
-- The conversions of src/userspace/libc/stdlib.c from a string to a number. The loops have fuel;
-- `endptr` is not NULL. A `long` is an integer, an `unsigned long` its 64-bit word.
pub mod Digits
pub mod Parse
mod Tests
use exyde.Common.{
  ℕ, zero, suc, ◌+◌, ◌-◌, ◌*◌, ◌/◌, ◌%◌, ◌^◌, ◌==◌, if◌then◌else◌, ◌&&◌, ◌||◌, not, Option, some,
  none, Bool, true, false, ltb, leb, ℤ, pos, negsuc, neg,
}
use exyde.Kernel.Errno.{Errno, erange, einval}
use exyde.User.String.{Mem}

-- `is_space_` and `digit_val_`.
abbrev pub is_space : ℕ → Bool
is_space c = (c == 32) || (c == 9) || (c == 10) || (c == 11) || (c == 12) || (c == 13)

abbrev pub digit_val : ℕ → ℤ
digit_val c =
    if leb 48 c && leb c 57
    then pos (c - 48)
    else if leb 97 c && leb c 122
    then pos (10 + (c - 97))
    else if leb 65 c && leb c 90
    then pos (10 + (c - 65))
    else negsuc 0

-- What a conversion returns, `*endptr`, and what it stores in `errno`.
pub record Parsed (A : Type 0) : Type 0 where
  pub value : A
  pub end : ℕ
  pub errno : Option Errno

-- `while (is_space_((unsigned char)*p)) ++p;`
unfoldable pub space_loop : ℕ → Mem → ℕ → Option ℕ
space_loop zero mem p = none
space_loop (suc fuel) mem p =
    let rest = space_loop fuel mem (suc p) in if is_space (mem p) then rest else some p

-- The base and the address behind a prefix of it, or none for an invalid one.
abbrev pub hex_prefix : Mem → ℕ → Bool
hex_prefix mem p = (mem p == 48) && ((mem (p + 1) == 120) || (mem (p + 1) == 88))

unfoldable pub base_of : Mem → ℕ → ℤ → Option (ℕ × ℕ)
base_of mem p (negsuc b) = none
base_of mem p (pos b) =
    if b == 0
    then (if hex_prefix mem p
        then some (16, p + 2)
        else if mem p == 48
        then some (8, p)
        else some (10, p))
    else if b == 16
    then (if hex_prefix mem p then some (16, p + 2) else some (16, p))
    else if ltb b 2 || ltb 36 b
    then none
    else some (b, p)

-- `d < 0 || d >= base`.
abbrev pub no_digit : ℤ → ℕ → Bool
no_digit (negsuc d) base = true
no_digit (pos d) base = leb base d

-- `acc > cutoff || (acc == cutoff && d > cutlim)` and the new value; `d` is not negative.
abbrev pub too_large : ℕ → ℕ → ℕ → ℤ → Bool
too_large acc cutoff cutlim (negsuc d) = false
too_large acc cutoff cutlim (pos d) = ltb cutoff acc || ((acc == cutoff) && ltb cutlim d)

abbrev pub add_digit : ℕ → ℕ → ℤ → ℕ
add_digit acc base (negsuc d) = acc
add_digit acc base (pos d) = (acc * base + d) % 2 ^ 64

-- The loop over the digits: the address behind them, `acc`, `overflow` and `any`.
unfoldable pub digit_loop : ℕ → Mem → ℕ → ℕ → ℕ → ℕ → ℕ → Bool → Bool → Option (ℕ × ℕ × Bool × Bool)
digit_loop zero mem base cutoff cutlim p acc overflow any = none
digit_loop (suc fuel) mem base cutoff cutlim p acc overflow any =
    let d = digit_val (mem p) in
    let large = too_large acc cutoff cutlim d in
    let acc' = if overflow || large then acc else add_digit acc base d in
    let rest = digit_loop fuel mem base cutoff cutlim (suc p) acc' (overflow || large) true in
    if no_digit d base then some (p, acc, overflow, any) else rest

abbrev pub has_sign : Mem → ℕ → Bool
has_sign mem p = (mem p == 43) || (mem p == 45)

abbrev pub is_negative : Mem → ℕ → Bool
is_negative mem p = mem p == 45

-- The digits up to the limit, for the base and an address behind the sign.
abbrev pub some_digits : Option (ℕ × ℕ × Bool × Bool) → Option (Option (ℕ × ℕ × Bool × Bool))
some_digits none = none
some_digits (some r) = some (some r)

abbrev pub digits_to : ℕ → Mem → ℕ → Option (ℕ × ℕ) → Option (Option (ℕ × ℕ × Bool × Bool))
digits_to fuel mem limit none = some none
digits_to fuel mem limit (some (base, p)) =
    some_digits (digit_loop fuel mem base (limit / base) (limit % base) p 0 false false)

abbrev pub finish_unsigned : ℕ → Bool → Option (Option (ℕ × ℕ × Bool × Bool)) → Option (Parsed ℕ)
finish_unsigned s negative none = none
finish_unsigned s negative (some none) = some (record { value = 0; end = s; errno = some einval })
finish_unsigned s negative (some (some (p, acc, overflow, any))) = some (record {
  value = if overflow then 2 ^ 64 - 1 else if negative then (2 ^ 64 - acc) % 2 ^ 64 else acc;
  end = if any then p else s;
  errno = if overflow then some erange else none;
})

abbrev pub unsigned_from : ℕ → Mem → ℕ → ℤ → Option ℕ → Option (Parsed ℕ)
unsigned_from fuel mem s base none = none
unsigned_from fuel mem s base (some p) =
    let p' = if has_sign mem p then suc p else p in
    finish_unsigned s (is_negative mem p) (digits_to fuel mem (2 ^ 64 - 1) (base_of mem p' base))

unfoldable pub strtoul : ℕ → Mem → ℕ → ℤ → Option (Parsed ℕ)
strtoul fuel mem s base = unsigned_from fuel mem s base (space_loop fuel mem s)

abbrev pub long_max : ℕ
long_max = 2 ^ 63 - 1

-- The magnitude limit of `strtol`.
abbrev pub limit_of : Bool → ℕ
limit_of negative = if negative then long_max + 1 else long_max

abbrev pub finish_signed : ℕ → Bool → Option (Option (ℕ × ℕ × Bool × Bool)) → Option (Parsed ℤ)
finish_signed s negative none = none
finish_signed s negative (some none) = some (record { value = pos 0; end = s; errno = some einval })
finish_signed s negative (some (some (p, acc, overflow, any))) = some (record {
  value =
      if overflow
      then (if negative then negsuc long_max else pos long_max)
      else if negative
      then (if acc == long_max + 1 then negsuc long_max else neg acc)
      else pos acc;
  end = if any then p else s;
  errno = if overflow then some erange else none;
})

abbrev pub signed_from : ℕ → Mem → ℕ → ℤ → Option ℕ → Option (Parsed ℤ)
signed_from fuel mem s base none = none
signed_from fuel mem s base (some p) =
    let negative = is_negative mem p in
    let p' = if has_sign mem p then suc p else p in
    finish_signed s negative (digits_to fuel mem (limit_of negative) (base_of mem p' base))

unfoldable pub strtol : ℕ → Mem → ℕ → ℤ → Option (Parsed ℤ)
strtol fuel mem s base = signed_from fuel mem s base (space_loop fuel mem s)

-- The conversion of a `long` to `int`, which wraps.
abbrev pub signed_word : ℕ → ℤ
signed_word w = if ltb w (2 ^ 31) then pos w else negsuc (2 ^ 32 - 1 - w)

abbrev pub to_int : ℤ → ℤ
to_int (pos n) = signed_word (n % 2 ^ 32)
to_int (negsuc n) = signed_word (2 ^ 32 - 1 - n % 2 ^ 32)

abbrev pub value_of : Option (Parsed ℤ) → Option ℤ
value_of none = none
value_of (some r) = some r.value

unfoldable pub atol : ℕ → Mem → ℕ → Option ℤ
atol fuel mem s = value_of (strtol fuel mem s (pos 10))

abbrev pub int_of : Option (Parsed ℤ) → Option ℤ
int_of none = none
int_of (some r) = some (to_int r.value)

unfoldable pub atoi : ℕ → Mem → ℕ → Option ℤ
atoi fuel mem s = int_of (strtol fuel mem s (pos 10))
