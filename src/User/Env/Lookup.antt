-- ===== src/User/Env/Lookup.antt =====
-- Which entry the scans of the environment find.
use exyde.Common.{
  ℕ, zero, suc, ◌+◌, ◌-◌, ◌<◌, ◌≤◌, ◌≡◌, ◌≢◌, refl, ap, ap₂, ◌∙◌, sym, Bool, true, false, not, List,
  Option, some, none, ◌==◌, if◌then◌else◌, arith, Bool-cases, inl, inr,
}
use exyde.Kernel.Chain.{null}
use exyde.User.Env.{Env, names, count_loop, count_env, find_env, find_hit}

-- The first index below `n` that passes the test.
abbrev pub pick : Option ℕ → Bool → ℕ → Option ℕ
pick (some k) b n = some k
pick none b n = if b then some n else none

unfoldable pub first : (ℕ → Bool) → ℕ → Option ℕ
first m zero = none
first m (suc n) = pick (first m n) (m n) n

pub first-congr :
    (m m' : ℕ → Bool) (n : ℕ) → ((i : ℕ) → i < n → m i ≡ m' i) → first m n ≡ first m' n
unfolding first
first-congr m m' zero same = refl
first-congr m m' (suc n) same =
    ap₂ (λ f b. pick f b n) (first-congr m m' n (λ i lt. same i (omega arith)))
      (same n (omega arith))

-- An index that is found stays the first one.
first-stays : (m : ℕ → Bool) (k i n : ℕ) → first m i ≡ some k → i ≤ n → first m n ≡ some k
unfolding first
first-stays m k i zero e le = let z : i ≡ 0 = omega arith in coe 0 1 (j. first m (z j) ≡ some k) e
first-stays m k i (suc n) e le = elim (Bool-cases (i == suc n)) [
  | inl last ↦ let z : i ≡ suc n = ground arith in coe 0 1 (j. first m (z j) ≡ some k) e
  | inr below ↦ rw (first-stays m k i n e (ground arith)) refl
]

-- What a result of `first` says.
abbrev pub First : (ℕ → Bool) → ℕ → Option ℕ → Type 0
First m n none = (i : ℕ) → i < n → m i ≡ false
First m n (some k) = (k < n) × (m k ≡ true)

pub pick-First :
    (m : ℕ → Bool) (n : ℕ) (f : Option ℕ) → First m n f → First m (suc n) (pick f (m n) n)
pick-First m n (some k) (lt, y) = (omega arith, y)
pick-First m n none out = elim (Bool-cases (m n)) [
  | inl y ↦ rw y (omega arith, y)
  | inr o ↦ rw o (λ i lt. elim (Bool-cases (i == n)) [
    | inl last ↦ let e : n ≡ i = ground arith in coe 0 1 (k. m (e k) ≡ false) o
    | inr below ↦ out i (ground arith)
  ])
]

pub first-First : (m : ℕ → Bool) (n : ℕ) → First m n (first m n)
unfolding first
first-First m zero = λ i lt. absurd (omega arith)
first-First m (suc n) = pick-First m n (first m n) (first-First m n)

-- The array has `n` entries and a NULL behind them. Once it is on the heap the variables say so.
pub record IsEnv (s : Env) (n : ℕ) : Type 0 where
  pub entries : (i : ℕ) → i < n → s.arr i ≢ null
  pub end : s.arr n ≡ null
  pub present : s.present ≡ true
  pub counted : s.is_owned ≡ true → s.count ≡ n
  pub room : s.is_owned ≡ true → n + 1 ≤ s.cap

-- The entries of a name.
abbrev pub named : Env → List ℕ → ℕ → Bool
named s name i = names (s.text (s.arr i)) name

find_env-first :
    (fuel : ℕ) (s : Env) (n : ℕ) (name : List ℕ) (i : ℕ)
    → IsEnv s n
    → first (named s name) i ≡ none
    → i ≤ n
    → n - i < fuel
    → find_env fuel s name i ≡ first (named s name) n
unfolding find_env first
find_env-first zero s n name i env out le lt = absurd (omega arith)
find_env-first (suc fuel) s n name i env out le lt = elim (Bool-cases (i == n)) [
  | inl last ↦
      let e : i ≡ n = ground arith in
      let z : (s.arr i == null) ≡ true = ground (arith, env.end, ap s.arr e) in
      rw z (sym out ∙ ap (first (named s name)) e)
  | inr before ↦
      let ne = env.entries i (ground arith) in
      let z : (s.arr i == null) ≡ false = ground arith in
      elim (Bool-cases (named s name i)) [
        | inl y ↦
            let here : first (named s name) (suc i) ≡ some i = rw (out, y) refl in
            rw (z, y) (sym (first-stays (named s name) i (suc i) n here (ground arith)))
        | inr o ↦
            let next : first (named s name) (suc i) ≡ none = rw (out, o) refl in
            rw (z, o) (find_env-first fuel s n name (suc i) env next (ground arith) (ground arith))
      ]
]

-- With fuel for the entries and the NULL the scan finds the first entry of the name.
pub find_hit-first :
    (fuel : ℕ) (s : Env) (n : ℕ) (name : List ℕ)
    → IsEnv s n
    → n < fuel
    → find_hit fuel s name ≡ first (named s name) n
unfolding first
find_hit-first fuel s n name env lt =
    ap (λ b. if not b then none else find_env fuel s name 0) env.present
    ∙ find_env-first fuel s n name 0 env refl (omega arith) (omega arith)

count_loop-count :
    (fuel : ℕ) (s : Env) (n i : ℕ) → IsEnv s n → i ≤ n → n - i < fuel → count_loop fuel s.arr i ≡ n
unfolding count_loop
count_loop-count zero s n i env le lt = absurd (omega arith)
count_loop-count (suc fuel) s n i env le lt = elim (Bool-cases (i == n)) [
  | inl last ↦
      let e : i ≡ n = ground arith in
      let z : (s.arr i == null) ≡ true = ground (arith, env.end, ap s.arr e) in rw z e
  | inr before ↦
      let ne = env.entries i (ground arith) in
      let z : (s.arr i == null) ≡ false = ground arith in
      rw z (count_loop-count fuel s n (i + 1) env (ground arith) (ground arith))
]

pub count_env-count : (fuel : ℕ) (s : Env) (n : ℕ) → IsEnv s n → n < fuel → count_env fuel s ≡ n
count_env-count fuel s n env lt =
    ap (λ b. if not b then 0 else count_loop fuel s.arr 0) env.present
    ∙ count_loop-count fuel s n 0 env (omega arith) (omega arith)
