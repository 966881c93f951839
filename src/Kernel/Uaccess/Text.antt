-- ===== src/Kernel/Uaccess/Text.antt =====
-- The copy of a string from a process.
use exyde.Common.{
  ℕ, zero, suc, ◌+◌, ◌-◌, ◌%◌, ◌^◌, ◌<◌, ◌≤◌, ◌≡◌, ◌≢◌, inl, inr, refl, ap, ap₂, ◌∙◌, true, false,
  ◌||◌, Option, some, none, ltb, ◌==◌, if◌then◌else◌, arith, Bool-cases, List, [], ◌∷◌, ◌++◌,
  length, take, update,
}
use exyde.Kernel.Chain.{Ptr, null}
use exyde.Kernel.Errno.{Errno, enametoolong}
use exyde.Kernel.Vmm.{Vmm}
use exyde.Kernel.Vmm.Mapping.{IsMap}
use exyde.Kernel.Uaccess.{strncpy_user_loop, strncpy_from_user, user_range_ok}
use exyde.Kernel.Uaccess.Ranges.{Accessible, range_ok_iff}

-- The string that is read at an address: bytes that are not 0, and a 0.
abbrev pub Text : (ℕ → Option ℕ) → ℕ → List ℕ → Type 0
Text read_byte a [] = read_byte a ≡ some 0
Text read_byte a (c ∷ cs) = (read_byte a ≡ some c) × (c ≢ 0) × Text read_byte (a + 1) cs

-- Memory with bytes put at an address.
abbrev pub put_text : (ℕ → ℕ) → ℕ → List ℕ → ℕ → ℕ
put_text m a [] = m
put_text m a (c ∷ cs) = put_text (update m a c) (a + 1) cs

-- What a copy of a string of at most `max` bytes leaves.
abbrev pub copied : ℕ → ℕ → (ℕ → ℕ) → List ℕ → Option Errno × (ℕ → ℕ)
copied max dst m cs =
    if ltb (length cs) max
    then (none, put_text m dst (cs ++ (0 ∷ [])))
    else (some enametoolong, update (put_text m dst (take max cs)) (dst + max - 1) 0)

copied-suc :
    (k a b : ℕ) (m : ℕ → ℕ) (c : ℕ) (cs : List ℕ)
    → b ≡ a + 1
    → copied k b (update m a c) cs ≡ copied (suc k) a m (c ∷ cs)
copied-suc k a b m c cs e = elim (Bool-cases (ltb (length cs) k)) [
  | inl fits ↦
      let fits' : ltb (length (c ∷ cs)) (suc k) ≡ true = ground (arith, fits) in
      rw (fits, fits') (ap (λ p. (none, put_text (update m a c) p (cs ++ (0 ∷ [])))) e)
  | inr cut ↦
      let cut' : ltb (length (c ∷ cs)) (suc k) ≡ false = ground (arith, cut) in
      let at : b + k - 1 ≡ a + suc k - 1 = omega arith in
      rw (cut, cut')
        (ap₂ (λ p q. (some enametoolong, update (put_text (update m a c) p (take k cs)) q 0)) e at)
]

Accessible-one :
    (f : ℕ → Option (ℕ × ℕ)) (va n j : ℕ) → Accessible f va n → j < n → Accessible f (va + j) 1
Accessible-one f va n j (inl empty) lt = absurd (omega (arith, empty, lt))
Accessible-one f va n j (inr (low, high, all)) lt =
    inr (omega arith, omega arith, λ p at after before. all p at (omega arith) (omega arith))

module _ (read_byte : ℕ → Option ℕ) (fuel : ℕ) (space : Ptr) (f : ℕ → Option (ℕ × ℕ)) (v : Vmm)
    (inv : IsMap space f v) (enough : 3 ≤ fuel) (dst usrc n : ℕ)
    (access : Accessible f usrc n) where
  range_of_byte :
      (i : ℕ) → i < n → (usrc < 2 ^ 47) × (user_range_ok fuel space (usrc + i) 1 v ≡ none)
  range_of_byte i lt =
      let below = end_of access in
      (
        omega (arith, below),
        (range_ok_iff space f v fuel (usrc + i) 1 inv (omega (arith, below)) (omega arith)
              (omega arith)).1
            (Accessible-one f usrc n i access lt),
      )
    where
      end_of : Accessible f usrc n → usrc + i < 2 ^ 47
      end_of (inl empty) = omega (arith, empty)
      end_of (inr (low, high, all)) = omega arith

  next_byte : (i : ℕ) → usrc + i + 1 ≡ usrc + (i + 1)
  next_byte i = omega arith

  strncpy_user_loop-copied :
      (k i : ℕ) (m : ℕ → ℕ) (cs : List ℕ)
      → Text read_byte (usrc + i) cs
      → i + length cs < n
      → strncpy_user_loop read_byte fuel space v k i dst usrc m ≡ copied k (dst + i) m cs
  unfolding strncpy_user_loop
  strncpy_user_loop-copied zero i m cs text lt =
      let none_fits : ltb (length cs) 0 ≡ false = ground arith in
      let at : dst + i - 1 ≡ dst + i + 0 - 1 = omega arith in
      rw none_fits (ap (λ p. (some enametoolong, update m p 0)) at)
  strncpy_user_loop-copied (suc k) i m [] text lt =
      let (small, fine) = range_of_byte i (omega arith) in
      let at : (usrc + i) % 2 ^ 64 ≡ usrc + i = omega arith in
      let up : ltb (usrc + i) usrc ≡ false = ground arith in
      let fits : ltb 0 (suc k) ≡ true = ground arith in rw (at, up, fine, text, fits) refl
  strncpy_user_loop-copied (suc k) i m (c ∷ cs) (read, nonzero, text) lt =
      let (small, fine) = range_of_byte i (omega arith) in
      let at : (usrc + i) % 2 ^ 64 ≡ usrc + i = omega arith in
      let up : ltb (usrc + i) usrc ≡ false = ground arith in
      let off : (c == 0) ≡ false = ground arith in
      rw (at, up, fine, read, off)
        (strncpy_user_loop-copied k (i + 1) (update m (dst + i) c) cs
            (coe 0 1 (x. Text read_byte (next_byte i x) cs) text) (omega arith)
          ∙ copied-suc k (dst + i) (dst + (i + 1)) m c cs (omega arith))

-- In an address space that maps the pages of `f`, with fuel for the pages of a byte, and for a string that
-- stands in memory that the process may access, with a destination and room for `max > 0` bytes: the string
-- is copied with its NUL if it fits, and otherwise the error says so, with a NUL as the last byte.
pub strncpy-copied :
    (read_byte : ℕ → Option ℕ) (fuel : ℕ) (space : Ptr) (f : ℕ → Option (ℕ × ℕ)) (v : Vmm)
    (dst usrc max : ℕ) (m : ℕ → ℕ) (cs : List ℕ)
    → IsMap space f v
    → 3 ≤ fuel
    → Accessible f usrc (length cs + 1)
    → Text read_byte usrc cs
    → 0 < max
    → dst ≢ null
    → strncpy_from_user read_byte fuel space v dst usrc max m ≡ copied max dst m cs
strncpy-copied read_byte fuel space f v dst usrc max m cs inv enough access text pos real =
    let asked : (max == 0 || dst == null) ≡ false = ground (arith, real) in
    let at : usrc ≡ usrc + 0 = omega arith in
    let to : dst + 0 ≡ dst = omega arith in
    rw asked (
      strncpy_user_loop-copied read_byte fuel space f v inv enough dst usrc (length cs + 1) access
        max 0 m cs (coe 0 1 (x. Text read_byte (at x) cs) text) (omega arith)
      ∙ ap (λ p. copied max p m cs) to)
