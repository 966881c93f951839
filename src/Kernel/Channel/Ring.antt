-- ===== src/Kernel/Channel/Ring.antt =====
-- The ring of a channel as a FIFO of messages, each with its capability.
use exyde.Common.{
  Bool-cases, inl, inr, ℕ, suc, ◌+◌, ◌-◌, ◌%◌, ◌≤◌, ◌<◌, ◌≡◌, ap, ◌∙◌, sym, List, [], ◌∷◌, ◌++◌,
  arith, ltb, ◌==◌, if◌then◌else◌, length,
}
use native.Mathlib.Nat.{mod_self, mod-eq_of_lt}

-- The index `i`, at most twice round the ring, as an index of a slot.
abbrev pub wrap : ℕ → ℕ → ℕ
wrap cap i = if ltb i cap then i else i - cap

pub wrap_step : (cap t : ℕ) → t < cap → (t + 1) % cap ≡ wrap cap (t + 1)
wrap_step cap t lt = elim (Bool-cases (t + 1 == cap)) [
  | inl e ↦ let f : t + 1 ≡ cap = ground arith in rw f (mod_self cap ∙ ground arith)
  | inr e ↦ let f : t + 1 < cap = ground arith in mod-eq_of_lt f ∙ ground arith
]

module _ {ℓ} {A : Type ℓ} (cap : ℕ) where
  -- From the index `i` on, the ring's slots hold the elements of the list.
  abbrev pub Window : (ℕ → A) → ℕ → List A → Type ℓ
  Window slot i [] = Unit
  Window slot i (x ∷ xs) = (slot (wrap cap i) ≡ x) × Window slot (suc i) xs

  pub Window-frame :
      (slot slot' : ℕ → A) (xs : List A) (i : ℕ)
      → ((j : ℕ) → i ≤ j → j < i + length xs → slot' (wrap cap j) ≡ slot (wrap cap j))
      → Window slot i xs
      → Window slot' i xs
  Window-frame slot slot' [] i h w = tt
  Window-frame slot slot' (x ∷ xs) i h (e, w) = (
    h i (omega arith) (omega arith) ∙ e,
    Window-frame slot slot' xs (suc i) (λ j le lt. h j (omega arith) (omega arith)) w,
  )

  pub Window-snoc :
      (slot : ℕ → A) (xs : List A) (i : ℕ) (x : A)
      → Window slot i xs
      → slot (wrap cap (i + length xs)) ≡ x
      → Window slot i (xs ++ (x ∷ []))
  Window-snoc slot [] i x w e =
      (ap (λ u. slot (wrap cap u)) (let f : i ≡ i + 0 = omega arith in f) ∙ e, tt)
  Window-snoc slot (y ∷ xs) i x (e, w) f = (
    e,
    Window-snoc slot xs (suc i) x w (
        ap (λ u. slot (wrap cap u))
          (let g : suc i + length xs ≡ i + length (y ∷ xs) = omega arith in g)
        ∙ f),
  )

  pub Window-shift :
      (slot : ℕ → A) (xs : List A) (i : ℕ)
      → i + length xs ≤ cap
      → Window slot (cap + i) xs
      → Window slot i xs
  Window-shift slot [] i le w = tt
  Window-shift slot (x ∷ xs) i le (e, w) =
      let at : wrap cap (cap + i) ≡ wrap cap i = ground arith in
      (
        ap slot (sym at) ∙ e,
        Window-shift slot xs (suc i) (omega arith) (
            coe 0 1 (k. Window slot ((let f : suc (cap + i) ≡ cap + suc i = omega arith in f) k) xs)
              w),
      )
