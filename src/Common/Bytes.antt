-- ===== src/Common/Bytes.antt =====
-- Bytes in memory: copies by a loop from the front, and what a range holds.
use Prim.Native.Nat.{ℕ, zero, suc, ◌+◌, ◌-◌, ◌<◌}
use mathlib.Core.Path.{◌≡◌, refl, ap, ap₂, ◌∙◌}
use mathlib.Core.Bool.{true, ◌&&◌}
use mathlib.Core.List.{List, [], ◌∷◌}
use native.Mathlib.Omega.{arith}
use exyde.Common.Tests.{leb, ltb, if◌then◌else◌}
use exyde.Common.Arrays.{update}

-- The loop of `copy_bytes(dst + d, src + s, n)` at index `i`, with `n` rounds left.
unfoldable pub copy_loop : (ℕ → ℕ) → ℕ → (ℕ → ℕ) → ℕ → ℕ → ℕ → (ℕ → ℕ)
copy_loop dst d src s i zero = dst
copy_loop dst d src s i (suc n) = copy_loop (update dst (d + i) (src (s + i))) d src s (suc i) n

abbrev pub copy_bytes : (ℕ → ℕ) → ℕ → (ℕ → ℕ) → ℕ → ℕ → (ℕ → ℕ)
copy_bytes dst d src s n = copy_loop dst d src s 0 n

-- The `n` bytes from `i` on.
abbrev pub bytes : (ℕ → ℕ) → ℕ → ℕ → List ℕ
bytes f i zero = []
bytes f i (suc n) = f i ∷ bytes f (suc i) n

pub copy_loop_lem :
    (dst : ℕ → ℕ) (d : ℕ) (src : ℕ → ℕ) (s i n j : ℕ)
    → copy_loop dst d src s i n j
      ≡ (if leb (d + i) j && ltb j (d + (i + n)) then src (s + (j - d)) else dst j)
unfolding copy_loop
copy_loop_lem dst d src s i zero j = ground arith
copy_loop_lem dst d src s i (suc n) j =
    ground (arith, copy_loop_lem (update dst (d + i) (src (s + i))) d src s (suc i) n j)

pub bytes_congr :
    (f g : ℕ → ℕ) (i j n : ℕ)
    → ((k : ℕ) → k < n → f (i + k) ≡ g (j + k))
    → bytes f i n ≡ bytes g j n
bytes_congr f g i j zero h = refl
bytes_congr f g i j (suc n) h =
    let first : f i ≡ g j =
      ap f (let e : i ≡ i + 0 = omega arith in e)
      ∙ (h 0 (omega arith) ∙ ap g (let e : j + 0 ≡ j = omega arith in e)) in
    ap₂ (λ x xs. x ∷ xs) first
      (bytes_congr f g (suc i) (suc j) n (λ k lt.
        ap f (let e : suc i + k ≡ i + suc k = omega arith in e)
        ∙ (h (suc k) (omega arith) ∙ ap g (let e : j + suc k ≡ suc j + k = omega arith in e))))

-- A copy puts the source's bytes where it says and leaves the others.
pub bytes-copy :
    (dst : ℕ → ℕ) (d : ℕ) (src : ℕ → ℕ) (s n : ℕ)
    → bytes (copy_bytes dst d src s n) d n ≡ bytes src s n
bytes-copy dst d src s n = bytes_congr _ src d s n (λ k lt.
    let e : d + k - d ≡ k = omega arith in
    copy_loop_lem dst d src s 0 n (d + k) ∙ ground (arith, ap (λ u. src (s + u)) e))

pub bytes-copy_other :
    (dst : ℕ → ℕ) (d : ℕ) (src : ℕ → ℕ) (s n i m : ℕ)
    → (if leb (i + m) d then true else leb (d + n) i) ≡ true
    → bytes (copy_bytes dst d src s n) i m ≡ bytes dst i m
bytes-copy_other dst d src s n i m apart =
    bytes_congr _ dst i i m (λ k lt. copy_loop_lem dst d src s 0 n (i + k) ∙ ground arith)
