-- ===== src/Kernel/Uaccess/Tests.antt =====
-- The theorems of uaccess.c at an address space with one page.
use exyde.Common.{
  ℕ, ◌≡◌, ◌↔◌, inr, refl, Option, some, none, [], ◌∷◌, ◌==◌, if◌then◌else◌, update, arith,
}
use exyde.Kernel.Vmm.{test_flag}
use exyde.Kernel.Vmm.Sample.{nothing, mapped, mapped-IsMap}
use exyde.Kernel.Uaccess.{user_range_ok, strncpy_from_user}
use exyde.Kernel.Uaccess.Ranges.{Accessible, range_ok_iff, IsUser}
use exyde.Kernel.Uaccess.Text.{strncpy-copied, copied}

abbrev pages : ℕ → Option (ℕ × ℕ)
pages = update nothing 0x8000201000 (some (0x7000, 7))

range_ok_iff_example :
    (user_range_ok 4 500 0x8000201ff0 16 mapped.1 ≡ none) ↔ Accessible pages 0x8000201ff0 16
range_ok_iff_example =
    range_ok_iff 500 pages mapped.1 4 0x8000201ff0 16 mapped-IsMap (omega arith) (omega arith)
      (omega arith)

-- The text "hi".
abbrev hi : ℕ → Option ℕ
hi a = if a == 0x8000201000 then some 104 else if a == 0x8000201001 then some 105 else some 0

hi-Accessible : Accessible pages 0x8000201000 3
unfolding test_flag
hi-Accessible = inr (
  omega arith,
  omega arith,
  λ p at after before.
      let here : 0x8000201000 ≡ p = omega arith in coe 0 1 (i. IsUser (pages (here i))) refl,
)

strncpy-copied_example :
    strncpy_from_user hi 3 500 mapped.1 100 0x8000201000 8 (λ _. 0)
    ≡ copied 8 100 (λ _. 0) (104 ∷ 105 ∷ [])
strncpy-copied_example =
    strncpy-copied hi 3 500 pages mapped.1 100 0x8000201000 8 (λ _. 0) (104 ∷ 105 ∷ []) mapped-IsMap
      (omega arith) hi-Accessible
      (refl, (λ e. absurd (omega (arith, e))), (refl, (λ e. absurd (omega (arith, e))), refl))
      (omega arith) (λ e. omega (arith, e))
