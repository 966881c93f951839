-- ===== src/Kernel/Pmm/Bitmap.antt =====
-- The bit helpers of pmm.c act on the page that they name and on no other.
use exyde.Common.{
  ℕ, ◌-◌, ◌*◌, ◌/◌, ◌%◌, ◌^◌, ◌<◌, ◌≡◌, ap, ◌∙◌, true, false, not, bit_and, arith, ◌==◌,
  if◌then◌else◌,
}
use exyde.Common.Bits.{
  bit, bit-lt, bit-bit_and, bit-bit_or, bit-pow, bit-complement, shift-bit, bit_and-align,
  bit_and-mask, bit-zero, pow_lt,
}
use exyde.Kernel.Pmm.{set_bit, clear_bit, get_bit, page_down, page_size}

get_bit-bit : (b : ℕ → ℕ) (q : ℕ) → get_bit b q ≡ not (bit (b (q / 64)) (q % 64) == 0)
unfolding get_bit
get_bit-bit b q = ap (λ t. not (t == 0)) (shift-bit (b (q / 64)) (q % 64))

module _ (b : ℕ → ℕ) (page q : ℕ) where
  pub get-set : get_bit (set_bit b page) q ≡ (if page == q then true else get_bit b q)
  unfolding set_bit
  get-set = ground (
    arith,
    get_bit-bit (set_bit b page) q,
    get_bit-bit b q,
    bit-bit_or (b (page / 64)) (2 ^ (page % 64)) (q % 64),
    bit-pow (page % 64) (q % 64),
    bit-lt (b (q / 64)) (q % 64),
  )

  pub get-clear : get_bit (clear_bit b page) q ≡ (if page == q then false else get_bit b q)
  unfolding clear_bit
  get-clear = ground (
    arith,
    get_bit-bit (clear_bit b page) q,
    get_bit-bit b q,
    bit-bit_and (b (page / 64)) (2 ^ 64 - 1 - 2 ^ (page % 64)) (q % 64),
    bit-complement 64 (2 ^ (page % 64)) (q % 64) (omega arith)
        (pow_lt (page % 64) 64 (omega arith)),
    bit-pow (page % 64) (q % 64),
    bit-lt (b (q / 64)) (q % 64),
  )

-- A word of ones has every page used, a word of zeros none.
pub get-ones : (b : ℕ → ℕ) (q : ℕ) → b (q / 64) ≡ 2 ^ 64 - 1 → get_bit b q ≡ true
get-ones b q e =
    let ones : bit (2 ^ 64 - 1 - 0) (q % 64) ≡ 1 - bit 0 (q % 64) =
      bit-complement 64 0 (q % 64) (omega arith) (omega arith) in
    get_bit-bit b q
    ∙ ap (λ t. not (bit t (q % 64) == 0)) e
    ∙ ground (arith, ones, bit-zero (q % 64))

pub get-zeros : (b : ℕ → ℕ) (q : ℕ) → b (q / 64) ≡ 0 → get_bit b q ≡ false
get-zeros b q e =
    get_bit-bit b q ∙ ap (λ t. not (bit t (q % 64) == 0)) e ∙ ground (arith, bit-zero (q % 64))

-- The mask rounds a 64-bit address down to its page.
pub page_down_lem : (a : ℕ) → a < 2 ^ 64 → page_down a ≡ a / page_size * page_size
unfolding page_down
page_down_lem a h = bit_and-align 12 52 a (omega arith)

pub page_offset : (a : ℕ) → bit_and a (page_size - 1) ≡ a % page_size
page_offset a = bit_and-mask 12 a
