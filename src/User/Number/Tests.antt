-- ===== src/User/Number/Tests.antt =====
-- The string " -42x" at 100.
use exyde.Common.{
  ℕ, ◌≡◌, refl, [], ◌∷◌, List, ◌^◌, ◌+◌, ◌-◌, some, none, arith, update, pos, negsuc, true,
}
use exyde.Kernel.Errno.{erange, einval}
use exyde.User.String.{Mem, IsString}
use exyde.User.Number.{digit_val, strtol, strtoul, space_loop, base_of}
use exyde.User.Number.Parse.{long_result, strtol-number_of}

abbrev memory : Mem
memory =
    update (update (update (update (update (update (λ i. 7) 100 32) 101 45) 102 52) 103 50) 104 120)
      105 0

abbrev text : List ℕ
text = 32 ∷ 45 ∷ 52 ∷ 50 ∷ 120 ∷ []

text-IsString : IsString memory 100 text
text-IsString = (
  refl,
  (λ e. omega arith),
  (
    refl,
    (λ e. omega arith),
    (refl, (λ e. omega arith), (refl, (λ e. omega arith), (refl, (λ e. omega arith), refl))),
  ),
)

-- The overflow of a `long` is told where the value of the digits is too large for it by one.
clamps :
    long_result 100 102 true 19 (2 ^ 63 + 1)
    ≡ record { value = negsuc (2 ^ 63 - 1); end = 121; errno = some erange }
clamps = refl

bad_base :
    strtoul 6 memory 100 (pos 1) ≡ some (record { value = 0; end = 100; errno = some einval })
unfolding strtoul space_loop base_of
bad_base = refl

-- The ends of the rows of digits, and the bytes beside them.
digit_values :
    (digit_val 48 ≡ pos 0)
    × (digit_val 57 ≡ pos 9)
    × (digit_val 97 ≡ pos 10)
    × (digit_val 122 ≡ pos 35)
    × (digit_val 65 ≡ pos 10)
    × (digit_val 90 ≡ pos 35)
digit_values = (refl, refl, refl, refl, refl, refl)

no_digit_values :
    (digit_val 47 ≡ negsuc 0)
    × (digit_val 58 ≡ negsuc 0)
    × (digit_val 64 ≡ negsuc 0)
    × (digit_val 91 ≡ negsuc 0)
    × (digit_val 96 ≡ negsuc 0)
    × (digit_val 123 ≡ negsuc 0)
no_digit_values = (refl, refl, refl, refl, refl, refl)

strtol-number_of_example :
    strtol 6 memory 100 (pos 10) ≡ some (record { value = negsuc 41; end = 104; errno = none })
unfolding exyde.User.Number.Parse.written_as
strtol-number_of_example =
    strtol-number_of 6 memory 100 10 text text-IsString (omega arith) (omega arith) (omega arith)
      (λ e. omega arith)
