-- ===== src/Common/Arrays.antt =====
-- C arrays of a fixed size, as functions of the index, and the loops that fill or test them.
use Prim.Native.Nat.{ℕ, zero, suc, ◌+◌, ◌≤◌, ◌<◌}
use mathlib.Core.Path.{◌≡◌, refl}
use mathlib.Core.Bool.{Bool, true, ◌&&◌}
use native.Mathlib.Omega.{arith}
use native.Mathlib.Numerals.{add-one}
use mathlib.Core.Logic.{inl, inr}
use exyde.Common.Tests.{◌==◌, leb, ltb, if◌then◌else◌, Bool-cases}

-- `a[i] = v`.
abbrev pub update {ℓ} : {A : Type ℓ} → (ℕ → A) → ℕ → A → ℕ → A
update a i v j = if i == j then v else a j

module _ {ℓ} {A : Type ℓ} where
  -- `for (k = i; k < i + n; ++k) a[k] = v;`
  unfoldable pub fill : ℕ → ℕ → A → (ℕ → A) → ℕ → A
  fill zero i v a = a
  fill (suc n) i v a = fill n (i + 1) v (update a i v)

  pub fill_lem :
      (n i : ℕ) (v : A) (a : ℕ → A) (j : ℕ)
      → fill n i v a j ≡ (if leb i j && ltb j (i + n) then v else a j)
  unfolding fill
  fill_lem zero i v a j = ground arith
  fill_lem (suc n) i v a j = ground (arith, fill_lem n (i + 1) v (update a i v) j)

-- The sum of a weight over the first `n` cells.
module _ {ℓ} {A : Type ℓ} (weight : A → ℕ) where
  unfoldable pub total : ℕ → (ℕ → A) → ℕ
  total zero a = 0
  total (suc n) a = total n a + weight (a n)

  pub total-add-one : (n : ℕ) (a : ℕ → A) → total (n + 1) a ≡ total n a + weight (a n)
  unfolding total
  total-add-one n a = rw add-one

  total-update_above :
      (n : ℕ) (a : ℕ → A) (i : ℕ) (v : A) → n ≤ i → total n (update a i v) ≡ total n a
  unfolding total
  total-update_above zero a i v h = refl
  total-update_above (suc n) a i v h = ground (arith, total-update_above n a i v)

  -- A write moves the sum by the difference of the two weights.
  pub total-update :
      (n : ℕ) (a : ℕ → A) (i : ℕ) (v : A)
      → i < n
      → total n (update a i v) + weight (a i) ≡ total n a + weight v
  unfolding total
  total-update zero a i v h = absurd (omega arith)
  total-update (suc n) a i v h = elim (Bool-cases (ltb i n)) [
    | inl below ↦ ground (arith, total-update n a i v)
    | inr last ↦ ground (arith, total-update_above n a i v)
  ]

  pub total-zero : (n : ℕ) (a : ℕ → A) → ((i : ℕ) → i < n → weight (a i) ≡ 0) → total n a ≡ 0
  unfolding total
  total-zero zero a h = refl
  total-zero (suc n) a h =
      omega (arith, h n (omega arith), total-zero n a (λ i lt. h i (omega arith)))

  pub total-congr :
      (n : ℕ) (a b : ℕ → A)
      → ((i : ℕ) → i < n → weight (a i) ≡ weight (b i))
      → total n a ≡ total n b
  unfolding total
  total-congr zero a b h = refl
  total-congr (suc n) a b h =
      omega (arith, h n (omega arith), total-congr n a b (λ i lt. h i (omega arith)))

  pub total-le : (n : ℕ) (a : ℕ → A) → ((v : A) → weight v ≤ 1) → total n a ≤ n
  unfolding total
  total-le zero a h = omega arith
  total-le (suc n) a h = omega (arith, h (a n), total-le n a h)

-- Whether a test holds of each index below a bound.
unfoldable pub every : ℕ → (ℕ → Bool) → Bool
every zero test = true
every (suc n) test = every n test && test n

pub every-get : (n : ℕ) (test : ℕ → Bool) → every n test ≡ true → (i : ℕ) → i < n → test i ≡ true
unfolding every
every-get zero test h i lt = absurd (omega arith)
every-get (suc n) test h i lt = elim (Bool-cases (i == n)) [
  | inl last ↦ ground arith
  | inr below ↦ every-get n test (ground arith) i (ground arith)
]
