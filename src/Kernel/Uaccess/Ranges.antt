-- ===== src/Kernel/Uaccess/Ranges.antt =====
-- The range check of uaccess.c, for an address space as a map from pages to addresses and flags.
use exyde.Common.{
  ℕ, zero, suc, ◌+◌, ◌-◌, ◌*◌, ◌/◌, ◌%◌, ◌^◌, ◌<◌, ◌≤◌, ◌≡◌, ◌⊎◌, ◌↔◌, inl, inr, refl, true, false,
  Option, some, none, ltb, ◌==◌, arith, Bool-cases, bit_and,
}
use exyde.Common.Bits.{bit_and-align}
use exyde.Kernel.Chain.{Ptr}
use exyde.Kernel.Errno.{Errno}
use exyde.Kernel.Pmm.{page_size}
use exyde.Kernel.Pmm.Bitmap.{page_offset}
use exyde.Kernel.Vmm.{Vmm, test_flag, is_offset, vm_user, user_va_base}
use exyde.Kernel.Vmm.Mapping.{IsMap}
use exyde.Kernel.Uaccess.{page_status, page_loop, user_range_ok, range_in_user_half, user_va_top}

-- A page that the process may access.
abbrev pub IsUser : Option (ℕ × ℕ) → Type 0
IsUser none = ⊥
IsUser (some (pa, flags)) = test_flag flags vm_user ≡ true

page_status_iff :
    (rest : Option Errno) (o : Option (ℕ × ℕ))
    → (page_status rest o ≡ none) ↔ (IsUser o × (rest ≡ none))
page_status_iff rest none = (λ e. cc, λ (u, e). absurd u)
page_status_iff rest (some (pa, flags)) = elim (Bool-cases (test_flag flags vm_user)) [
  | inl z ↦ (λ e. (z, rw z at e), λ (u, e). rw z e)
  | inr z ↦ (λ e. absurd (cc (rw z at e)), λ (u, e). absurd (cc (z, u)))
]

-- The pages from `page` to `end`.
abbrev AllUser : (ℕ → Option (ℕ × ℕ)) → ℕ → ℕ → Type 0
AllUser f page end = (p : ℕ) → p % 4096 ≡ 0 → page ≤ p → p < end → IsUser (f p)

module _ (space : Ptr) (f : ℕ → Option (ℕ × ℕ)) (v : Vmm) (inv : IsMap space f v) (end : ℕ)
    (low : end ≤ user_va_top) where
  page_loop_iff :
      (k page : ℕ)
      → page % 4096 ≡ 0
      → page < end + 4096
      → end + 4096 ≤ page + k * 4096
      → (page_loop k space page end v ≡ none) ↔ AllUser f page end
  unfolding page_loop test_flag
  page_loop_iff zero page even near enough = absurd (omega arith)
  page_loop_iff (suc k) page even near enough = elim (Bool-cases (ltb page end)) [
    | inr z ↦ rw z (λ e p at le lt. absurd (ground arith), λ all. refl)
    | inl z ↦
        let no_wrap : (page + page_size) % 2 ^ 64 ≡ page + 4096 = ground arith in
        let even' : is_offset page ≡ false = ground (arith, page_offset page) in
        let read = inv.reads page even' (ground arith) in
        let (to, from) = page_status_iff (page_loop k space (page + 4096) end v) (f page) in
        let (to', from') =
          page_loop_iff k (page + 4096) (omega arith) (ground (arith, z)) (omega arith) in
        rw (z, no_wrap, read)
          (
            (λ e p at le lt. elim (Bool-cases (p == page)) [
              | inl here ↦
                  let same : page ≡ p = ground (arith, here) in
                  coe 0 1 (i. IsUser (f (same i))) (to e).0
              | inr off ↦ to' (to e).1 p at (ground (arith, at, even, off)) lt
            ]),
            (λ all. from (
              all page even (omega arith) (ground arith),
              from' (λ p at le lt. all p at (omega arith) lt),
            )),
          )
  ]

-- A range that the process may access: it is empty, or it lies in the user half and each page it meets is
-- mapped for the process.
abbrev pub Accessible : (ℕ → Option (ℕ × ℕ)) → ℕ → ℕ → Type 0
Accessible f va n =
    (n ≡ 0)
    ⊎ ((user_va_base ≤ va)
        × (va + n ≤ user_va_top)
        × ((p : ℕ) → p % 4096 ≡ 0 → va < p + 4096 → p < va + n → IsUser (f p)))

in_half_iff :
    (va n : ℕ)
    → va < 2 ^ 64
    → n < 2 ^ 64
    → 0 < n
    → (range_in_user_half va n ≡ true) ↔ ((user_va_base ≤ va) × (va + n ≤ user_va_top))
unfolding range_in_user_half
in_half_iff va n small small' pos =
    (λ e. (ground (arith, e), ground (arith, e)), λ (low, high). ground (arith, low, high))

-- In an address space that maps the pages of `f`, for 64-bit arguments and with fuel for the pages of the
-- range and three more, the check of a range succeeds exactly if the process may access it: no sum wraps
-- around unnoticed.
pub range_ok_iff :
    (space : Ptr) (f : ℕ → Option (ℕ × ℕ)) (v : Vmm) (fuel va n : ℕ)
    → IsMap space f v
    → va < 2 ^ 64
    → n < 2 ^ 64
    → n / 4096 + 3 ≤ fuel
    → (user_range_ok fuel space va n v ≡ none) ↔ Accessible f va n
unfolding user_range_ok
range_ok_iff space f v fuel va n inv small small' enough = elim (Bool-cases (n == 0)) [
  | inl z ↦ rw z (λ e. inl (ground (arith, z)), λ a. refl)
  | inr some_bytes ↦
      let (to, from) = in_half_iff va n small small' (ground (arith, some_bytes)) in
      elim (Bool-cases (range_in_user_half va n)) [
        | inr z ↦
            rw (some_bytes, z)
              (
                (λ e. cc),
                (λ a. elim a [
                  | inl empty ↦ ground (arith, empty, some_bytes)
                  | inr (low, high, all) ↦ absurd (cc (z, from (low, high)))
                ]),
              )
        | inl z ↦
            let (low, high) = to z in
            let page : bit_and va (2 ^ 64 - page_size) ≡ va / 4096 * 4096 =
              bit_and-align 12 52 va (omega arith) in
            let end : (va + n) % 2 ^ 64 ≡ va + n = omega arith in
            let (to', from') =
              page_loop_iff space f v inv (va + n) high fuel (va / 4096 * 4096) (omega arith)
                (omega arith) (omega arith) in
            rw (some_bytes, z, page, end)
              (
                (λ e. inr (low, high, λ p at after before. to' e p at (omega arith) before)),
                (λ a. elim a [
                  | inl empty ↦ ground (arith, empty, some_bytes)
                  | inr (low', high', all) ↦ from' (λ p at le lt. all p at (omega arith) lt)
                ]),
              )
      ]
]
