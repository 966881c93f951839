-- ===== src/Common/Bits.antt =====
-- Bit operations on machine words, read bit by bit: the laws of `&`, `|`, `~` and of masks.
use Prim.Native.Nat.{
  ℕ, zero, suc, ◌+◌, ◌-◌, ◌*◌, ◌/◌, ◌%◌, ◌^◌, ◌≤◌, ◌<◌, min, max, bit_and, bit_or, digits,
  bit_and-bitwise, bit_or-bitwise,
}
use mathlib.Core.Path.{◌≡◌, refl, sym, ap, ap₂, ◌∙◌}
use native.Mathlib.Omega.{arith}
use native.Mathlib.Nat.{
  pow-suc, div-div-eq-div-mul, mul_comm, mul-one, div-one, div-add-mod, mod-eq_of_lt,
}
use exyde.Common.Tests.{◌==◌, if◌then◌else◌}

pub pow_pos : (k : ℕ) → 0 < 2 ^ k
pow_pos zero = omega arith
pow_pos (suc k) = omega (arith, pow-suc 2 k, pow_pos k)

pub pow_lt : (a b : ℕ) → a < b → 2 ^ a < 2 ^ b
pow_lt zero zero h = elim h [ ]
pow_lt zero (suc b) h = omega (arith, pow-suc 2 b, pow_pos b)
pow_lt (suc a) zero h = elim h [ ]
pow_lt (suc a) (suc b) h = omega (arith, pow-suc 2 a, pow-suc 2 b, pow_lt a b (omega arith))

-- Bit `k` of `w`, lowest first.
abbrev pub bit : ℕ → ℕ → ℕ
bit w zero = w % 2
bit w (suc k) = bit (w / 2) k

-- An operation on words that is given digit by digit, in as many rounds as its first operand.
module _ (z : ℕ → ℕ) (f : ℕ → ℕ → ℕ) (op : ℕ → ℕ → ℕ) where
  one_more : (rounds w v : ℕ) → w ≤ rounds → digits z f (suc rounds) w v ≡ digits z f rounds w v
  one_more zero zero v le = refl
  one_more zero (suc w) v le = absurd (omega arith)
  one_more (suc rounds) zero v le = refl
  one_more (suc rounds) (suc w) v le =
      let e = one_more rounds (suc w / 2) (v / 2) (omega arith) in
      ap (λ high. high * 2 + f (suc w % 2) (v % 2)) e

  spare_rounds :
      (spare w v rounds : ℕ) → spare + w ≡ rounds → digits z f rounds w v ≡ digits z f w w v
  spare_rounds zero w v rounds e = ap (λ r. digits z f r w v) (omega arith)
  spare_rounds (suc spare) w v zero e = absurd (omega arith)
  spare_rounds (suc spare) w v (suc rounds) e =
      one_more rounds w v (omega arith) ∙ spare_rounds spare w v rounds (omega arith)

  low_digit :
      ((w v : ℕ) → op w v ≡ digits z f w w v)
      → (w v : ℕ) → op (suc w) v ≡ op (suc w / 2) (v / 2) * 2 + f (suc w % 2) (v % 2)
  low_digit meaning w v =
      let high =
        spare_rounds (w - suc w / 2) (suc w / 2) (v / 2) w (omega arith)
        ∙ sym (meaning (suc w / 2) (v / 2)) in
      meaning (suc w) v ∙ ap (λ h. h * 2 + f (suc w % 2) (v % 2)) high

bit_and-low : (w v : ℕ) → bit_and w v ≡ bit_and (w / 2) (v / 2) * 2 + min (w % 2) (v % 2)
bit_and-low zero v =
    let e : bit_and 0 (v / 2) ≡ 0 = bit_and-bitwise 0 (v / 2) in
    omega (arith, e, bit_and-bitwise 0 v)
bit_and-low (suc w) v = low_digit (λ u. zero) min bit_and bit_and-bitwise w v

bit_or-low : (w v : ℕ) → bit_or w v ≡ bit_or (w / 2) (v / 2) * 2 + max (w % 2) (v % 2)
bit_or-low zero v =
    let e : bit_or 0 (v / 2) ≡ v / 2 = bit_or-bitwise 0 (v / 2) in
    omega (arith, e, bit_or-bitwise 0 v)
bit_or-low (suc w) v = low_digit (λ u. u) max bit_or bit_or-bitwise w v

pub bit-lt : (w k : ℕ) → bit w k < 2
bit-lt w zero = omega arith
bit-lt w (suc k) = bit-lt (w / 2) k

pub bit-zero : (k : ℕ) → bit 0 k ≡ 0
bit-zero zero = refl
bit-zero (suc k) = bit-zero k

pub bit-bit_and : (a b k : ℕ) → bit (bit_and a b) k ≡ min (bit a k) (bit b k)
bit-bit_and a b zero = omega (arith, bit_and-low a b)
bit-bit_and a b (suc k) =
    let e : bit_and a b / 2 ≡ bit_and (a / 2) (b / 2) = omega (arith, bit_and-low a b) in
    rw e (bit-bit_and (a / 2) (b / 2) k)

pub bit-bit_or : (a b k : ℕ) → bit (bit_or a b) k ≡ max (bit a k) (bit b k)
bit-bit_or a b zero = omega (arith, bit_or-low a b)
bit-bit_or a b (suc k) =
    let e : bit_or a b / 2 ≡ bit_or (a / 2) (b / 2) = omega (arith, bit_or-low a b) in
    rw e (bit-bit_or (a / 2) (b / 2) k)

-- `1 << j` has bit `j` alone.
pub bit-pow : (j k : ℕ) → bit (2 ^ j) k ≡ (if j == k then 1 else 0)
bit-pow zero zero = refl
bit-pow zero (suc k) = bit-zero k ∙ ground arith
bit-pow (suc j) zero = ground (arith, pow-suc 2 j)
bit-pow (suc j) (suc k) =
    let e : 2 ^ suc j / 2 ≡ 2 ^ j = omega (arith, pow-suc 2 j) in rw e (bit-pow j k ∙ ground arith)

-- `~x` in a word of `n` bits.
pub bit-complement : (n x k : ℕ) → k < n → x < 2 ^ n → bit (2 ^ n - 1 - x) k ≡ 1 - bit x k
bit-complement zero x k h p = absurd (omega arith)
bit-complement (suc n) x zero h p = omega (arith, pow-suc 2 n)
bit-complement (suc n) x (suc k) h p =
    let e : (2 ^ suc n - 1 - x) / 2 ≡ 2 ^ n - 1 - x / 2 = omega (arith, pow-suc 2 n) in
    rw e (bit-complement n (x / 2) k (omega arith) (omega (arith, pow-suc 2 n)))

-- Two words of `n` bits are equal if their bits are.
pub eq_of_bits : (n a b : ℕ) → a < 2 ^ n → b < 2 ^ n → ((k : ℕ) → k < n → bit a k ≡ bit b k) → a ≡ b
eq_of_bits zero a b p q h = omega arith
eq_of_bits (suc n) a b p q h = omega (
  arith,
  h 0 (omega arith),
  eq_of_bits n (a / 2) (b / 2) (omega (arith, pow-suc 2 n)) (omega (arith, pow-suc 2 n))
      (λ k lt. h (suc k) (omega arith)),
)

bit_and_zero_fuel : (n a : ℕ) → a ≤ n → bit_and a 0 ≡ 0
bit_and_zero_fuel n zero h = refl
bit_and_zero_fuel zero (suc a) h = absurd (omega arith)
bit_and_zero_fuel (suc n) (suc a) h =
    omega (arith, bit_and-low (suc a) 0, bit_and_zero_fuel n (suc a / 2) (omega arith))

pub bit_and_zero : (a : ℕ) → bit_and a 0 ≡ 0
bit_and_zero a = bit_and_zero_fuel a a (omega arith)

div-pow-suc : (a k : ℕ) → a / 2 ^ suc k ≡ a / 2 / 2 ^ k
div-pow-suc a k =
    ap (λ t. a / t) (pow-suc 2 k ∙ mul_comm (2 ^ k) 2) ∙ sym (div-div-eq-div-mul a 2 (2 ^ k))

mod-pow-suc : (a k : ℕ) → a % 2 ^ suc k ≡ a / 2 % 2 ^ k * 2 + a % 2
mod-pow-suc a k =
    let q : ℕ = a / 2 ^ suc k in
    omega (
      arith,
      ap (λ t. t * q) (pow-suc 2 k),
      ap (λ t. 2 ^ k * t) (div-pow-suc a k),
      div-add-mod a (2 ^ suc k),
      div-add-mod (a / 2) (2 ^ k),
    )

-- `(w >> k) & 1` is bit `k`.
pub shift-bit : (w k : ℕ) → bit_and (w / 2 ^ k) 1 ≡ bit w k
shift-bit w zero = omega (arith, bit_and-low (w / 1) 1, bit_and_zero (w / 1 / 2))
shift-bit w (suc k) = rw (div-pow-suc w k) (shift-bit (w / 2) k)

bit_and_congr : (a b c : ℕ) → b / 2 ≡ c → bit_and a b ≡ bit_and (a / 2) c * 2 + min (a % 2) (b % 2)
bit_and_congr a b c e = bit_and-low a b ∙ ap (λ t. bit_and (a / 2) t * 2 + min (a % 2) (b % 2)) e

-- A mask of `k` ones keeps the remainder.
pub bit_and-mask : (k a : ℕ) → bit_and a (2 ^ k - 1) ≡ a % 2 ^ k
bit_and-mask zero a = omega (arith, bit_and_zero a)
bit_and-mask (suc k) a = omega (
  arith,
  pow-suc 2 k,
  pow_pos k,
  bit_and_congr a (2 ^ suc k - 1) (2 ^ k - 1) (omega (arith, pow-suc 2 k)),
  bit_and-mask k (a / 2),
  mod-pow-suc a k,
)

-- A mask shifted up by `k` acts on the digits from `k` on: `~(2 ^ k - 1)` is of this form.
pub bit_and-shifted : (k a m : ℕ) → bit_and a (m * 2 ^ k) ≡ bit_and (a / 2 ^ k) m * 2 ^ k
bit_and-shifted zero a m =
    ap₂ bit_and (sym (div-one a)) (mul-one m) ∙ sym (mul-one (bit_and (a / 1) m))
bit_and-shifted (suc k) a m =
    let half : m * 2 ^ suc k / 2 ≡ m * 2 ^ k = omega (arith, ap (λ t. m * t) (pow-suc 2 k)) in
    let ih : bit_and (a / 2) (m * 2 ^ k) ≡ bit_and (a / 2 ^ suc k) m * 2 ^ k =
      rw (div-pow-suc a k) (bit_and-shifted k (a / 2) m) in
    omega (
      arith,
      ap (λ t. bit_and (a / 2 ^ suc k) m * t) (pow-suc 2 k),
      ap (λ t. m * t) (pow-suc 2 k),
      bit_and_congr a (m * 2 ^ suc k) (m * 2 ^ k) half,
      ih,
    )

-- Rounding down to a multiple of `2 ^ k` in a word of `k + n` bits.
pub bit_and-align :
    (k n a : ℕ) → a / 2 ^ k < 2 ^ n → bit_and a ((2 ^ n - 1) * 2 ^ k) ≡ a / 2 ^ k * 2 ^ k
bit_and-align k n a h =
    bit_and-shifted k a (2 ^ n - 1)
    ∙ ap (λ t. t * 2 ^ k) (bit_and-mask n (a / 2 ^ k) ∙ mod-eq_of_lt h)

bit_or_zero_fuel : (n a : ℕ) → a ≤ n → bit_or a 0 ≡ a
bit_or_zero_fuel n zero h = refl
bit_or_zero_fuel zero (suc a) h = absurd (omega arith)
bit_or_zero_fuel (suc n) (suc a) h =
    omega (arith, bit_or-low (suc a) 0, bit_or_zero_fuel n (suc a / 2) (omega arith))

pub bit_or_zero : (a : ℕ) → bit_or a 0 ≡ a
bit_or_zero a = bit_or_zero_fuel a a (omega arith)

-- Digits from `k` on and digits below it do not overlap: `|` adds them.
pub bit_or-shifted : (k m c : ℕ) → c < 2 ^ k → bit_or (m * 2 ^ k) c ≡ m * 2 ^ k + c
bit_or-shifted zero m c h =
    let none_below : c ≡ 0 = omega arith in rw none_below (bit_or_zero (m * 1) ∙ omega arith)
bit_or-shifted (suc k) m c h =
    let half : m * 2 ^ suc k / 2 ≡ m * 2 ^ k = omega (arith, ap (λ t. m * t) (pow-suc 2 k)) in
    omega (
      arith,
      bit_or-low (m * 2 ^ suc k) c,
      ap (λ t. bit_or t (c / 2)) half,
      ap (λ t. m * t) (pow-suc 2 k),
      bit_or-shifted k m (c / 2) (omega (arith, pow-suc 2 k)),
    )
