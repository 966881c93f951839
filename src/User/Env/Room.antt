-- ===== src/User/Env/Room.antt =====
-- The room that `setenv` makes for an entry.
use exyde.Common.{
  ℕ, ◌+◌, ◌<◌, ◌≤◌, ◌≡◌, refl, true, some, leb, if◌then◌else◌, arith, Bool-cases, inl, inr,
}
use exyde.Kernel.Chain.{Ptr}
use exyde.Kernel.Errno.{Result, ok, err}
use exyde.User.Env.{Env, count_env, promoted, promote, ensure_slot, enlarged}
use exyde.User.Env.Lookup.{IsEnv, count_env-count}

-- The same entries, in an array of the process's own.
abbrev pub Promoted : Env → ℕ → Result ℕ × Env → Type 0
Promoted s n (err e, s') = ⊥
Promoted s n (ok z, s') =
    (z ≡ 0)
    × IsEnv s' n
    × (s'.is_owned ≡ true)
    × ((i : ℕ) → i < n → s'.arr i ≡ s.arr i)
    × (s'.text ≡ s.text)

pub promote-Promoted :
    (fuel : ℕ) (new : ℕ → Ptr) (s : Env) (n : ℕ)
    → IsEnv s n
    → n < fuel
    → Promoted s n (promote fuel (some new) s)
unfolding promote
promote-Promoted fuel new s n env lt = elim (Bool-cases s.is_owned) [
  | inl own ↦
      coe 1 0
        (k. Promoted s n (if own k then (ok 0, s) else (ok 0, promoted (count_env fuel s) s new)))
        (refl, env, own, (λ i below. refl), refl)
  | inr stack ↦
      coe 1 0
        (k. Promoted s n (
          if stack k
          then (ok 0, s)
          else (ok 0, promoted (count_env-count fuel s n env lt k) s new)))
        (
          refl,
          record {
            entries = λ i below. ground (arith, env.entries i below);
            end = ground arith;
            present = refl;
            counted = λ own. refl;
            room = λ own. omega arith;
          },
          refl,
          (λ i below. ground arith),
          refl,
        )
]

-- Room for one more entry.
abbrev pub Roomy : Env → ℕ → Result ℕ × Env → Type 0
Roomy s n (err e, s') = ⊥
Roomy s n (ok z, s') =
    (z ≡ 0)
    × IsEnv s' n
    × (s'.is_owned ≡ true)
    × (n + 2 ≤ s'.cap)
    × ((i : ℕ) → i < n → s'.arr i ≡ s.arr i)
    × (s'.text ≡ s.text)

pub ensure_slot-Roomy :
    (new : ℕ → Ptr) (s : Env) (n : ℕ)
    → IsEnv s n
    → s.is_owned ≡ true
    → Roomy s n (ensure_slot (some new) s)
unfolding ensure_slot
ensure_slot-Roomy new s n env own =
    let count : s.count ≡ n = env.counted own in
    let room : n + 1 ≤ s.cap = env.room own in
    elim (Bool-cases (leb (s.count + 2) s.cap)) [
      | inl enough ↦
          coe 1 0 (k. Roomy s n (if enough k then (ok 0, s) else (ok 0, enlarged s new)))
            (refl, env, own, ground arith, (λ i below. refl), refl)
      | inr full ↦ coe 1 0 (k. Roomy s n (if full k then (ok 0, s) else (ok 0, enlarged s new))) (
        refl,
        record {
          entries = λ i below. ground (arith, env.entries i below);
          end = ground (arith, env.end);
          present = env.present;
          counted = env.counted;
          room = λ o. ground arith;
        },
        own,
        ground arith,
        (λ i below. ground arith),
        refl,
      )
    ]
