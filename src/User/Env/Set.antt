-- ===== src/User/Env/Set.antt =====
-- `setenv` as a whole.
use exyde.Common.{
  ℕ, suc, ◌<◌, ◌≡◌, ◌≢◌, refl, ap, ◌∙◌, sym, Bool, true, false, List, ◌∷◌, Option, some, none,
  if◌then◌else◌, arith,
}
use exyde.Kernel.Chain.{Ptr, null}
use exyde.Kernel.Errno.{Result, ok, err, einval}
use exyde.User.Ramfs.Dir.{same_name}
use exyde.User.Env.{
  Env, Memory, bad_name, names, getenv, value_at, entry_of, promote, ensure_slot, release,
  replace_entry, append_entry, and_then, set_at, setenv,
}
use exyde.User.Env.Lookup.{first, first-congr, IsEnv, named, find_hit-first}
use exyde.User.Env.{release_if, with_entry, with_last}
use exyde.User.Env.Room.{Promoted, promote-Promoted, Roomy, ensure_slot-Roomy}
use exyde.User.Env.Change.{Changed, getenv-same, with_entry-Changed, with_last-Changed}

-- The same change, told of an environment with the same values before it.
Changed-from :
    (fuel : ℕ) (s s₁ : Env) (n : ℕ) (name value : List ℕ) (r : Result ℕ × Env)
    → ((other : List ℕ) → bad_name other ≡ false → getenv fuel s₁ other ≡ getenv fuel s other)
    → Changed fuel s₁ n name value r
    → Changed fuel s n name value r
Changed-from fuel s s₁ n name value (err e, s') same c = c
Changed-from fuel s s₁ n name value (ok z, s') same (zero_z, env, change) = (
  zero_z,
  env,
  λ other good.
      change other good
      ∙ ap (λ v. if same_name other name then some value else v) (same other good),
)

-- Entries that are the same have the same values.
same_values :
    (fuel : ℕ) (s s₁ : Env) (n : ℕ)
    → IsEnv s n
    → IsEnv s₁ n
    → n < fuel
    → ((i : ℕ) → i < n → s₁.arr i ≡ s.arr i)
    → s₁.text ≡ s.text
    → (other : List ℕ) → bad_name other ≡ false
    → getenv fuel s₁ other ≡ getenv fuel s other
same_values fuel s s₁ n env env₁ lt arr text other good =
    let same : (i : ℕ) → i < n → s₁.text (s₁.arr i) ≡ s.text (s.arr i) =
      λ i li. ap s₁.text (arr i li) ∙ ap (λ f. f (s.arr i)) text in
    getenv-same fuel s s₁ n other env env₁ lt good (λ i li. ap (λ t. names t other) (same i li))
      (λ i li y. same i li)

same_first :
    (s s₁ : Env) (n : ℕ) (name : List ℕ)
    → ((i : ℕ) → i < n → s₁.arr i ≡ s.arr i)
    → s₁.text ≡ s.text
    → first (named s₁ name) n ≡ first (named s name) n
same_first s s₁ n name arr text =
    first-congr (named s₁ name) (named s name) n
      (λ i li. ap (λ t. names t name) (ap s₁.text (arr i li) ∙ ap (λ f. f (s.arr i)) text))

module _ (fuel : ℕ) (s : Env) (n : ℕ) (name value : List ℕ) (p : Ptr) where
  -- A string that is not an entry yet.
  abbrev pub Fresh : Type 0
  Fresh = (p ≢ null) × ((i : ℕ) → i < n → s.arr i ≢ p)

  released-Changed :
      (s₁ : Env) (idx : ℕ) (b : Bool)
      → IsEnv s₁ n
      → n < fuel
      → bad_name name ≡ false
      → p ≢ null
      → ((i : ℕ) → i < n → s₁.arr i ≢ p)
      → first (named s₁ name) n ≡ some idx
      → Changed fuel s₁ n name value
          (ok 0, with_entry idx p (entry_of name value) (release_if b idx s₁))
  released-Changed s₁ idx true env lt good ne fresh hit =
      with_entry-Changed fuel s₁ n idx name value p (s₁.arr idx ∷ s₁.freed) env lt good ne fresh hit
  released-Changed s₁ idx false env lt good ne fresh hit =
      with_entry-Changed fuel s₁ n idx name value p s₁.freed env lt good ne fresh hit

  replace-Changed :
      (idx : ℕ) (r : Result ℕ × Env)
      → IsEnv s n
      → n < fuel
      → bad_name name ≡ false
      → Fresh
      → first (named s name) n ≡ some idx
      → Promoted s n r
      → Changed fuel s n name value (replace_entry idx name value (some p) r)
  replace-Changed idx (err e, s₁) env lt good fresh hit none_left = none_left
  replace-Changed idx (ok z, s₁) env lt good fresh hit (zero_z, env₁, own, arr, text) =
      Changed-from fuel s s₁ n name value
        (ok 0, with_entry idx p (entry_of name value) (release idx s₁))
        (same_values fuel s s₁ n env env₁ lt arr text)
        (released-Changed s₁ idx (s₁.owned idx) env₁ lt good fresh.0
          (λ i li e. fresh.1 i li (sym (arr i li) ∙ e)) (same_first s s₁ n name arr text ∙ hit))

  append-Changed :
      (r : Result ℕ × Env)
      → IsEnv s n
      → suc n < fuel
      → bad_name name ≡ false
      → Fresh
      → first (named s name) n ≡ none
      → Roomy s n r
      → Changed fuel s n name value (append_entry name value (some p) r)
  append-Changed (err e, s₁) env lt good fresh miss none_left = none_left
  append-Changed (ok z, s₁) env lt good fresh miss (zero_z, env₁, own, room, arr, text) =
      Changed-from fuel s s₁ n name value (ok 0, with_last p (entry_of name value) s₁)
        (same_values fuel s s₁ n env env₁ (omega arith) arr text)
        (with_last-Changed fuel s₁ n name value p env₁ (env₁.counted own) room lt good fresh.0
          (λ i li e. fresh.1 i li (sym (arr i li) ∙ e)) (same_first s s₁ n name arr text ∙ miss))

  and_then-Roomy :
      (larger : ℕ → Ptr) (r : Result ℕ × Env)
      → Promoted s n r
      → Roomy s n (and_then (ensure_slot (some larger)) r)
  and_then-Roomy larger (err e, s₁) none_left = none_left
  and_then-Roomy larger (ok z, s₁) (zero_z, env₁, own, arr, text) =
      from (ensure_slot (some larger) s₁) (ensure_slot-Roomy larger s₁ n env₁ own)
    where
      from : (r : Result ℕ × Env) → Roomy s₁ n r → Roomy s n r
      from (err e, s₂) h = h
      from (ok z', s₂) (zero_z', env₂, own₂, room, arr₂, text₂) =
          (zero_z', env₂, own₂, room, (λ i li. arr₂ i li ∙ arr i li), text₂ ∙ text)

  set_at-Changed :
      (table larger : ℕ → Ptr) (f : Option ℕ)
      → IsEnv s n
      → suc n < fuel
      → bad_name name ≡ false
      → Fresh
      → first (named s name) n ≡ f
      → Changed fuel s n name value (
          set_at fuel
            (record { table = some table; larger = some larger; entry = some p })
            name
            value
            true
            s
            f)
  set_at-Changed table larger none env lt good fresh miss =
      let promoted_ok = promote-Promoted fuel table s n env (omega arith) in
      let r = promote fuel (some table) s in
      append-Changed (and_then (ensure_slot (some larger)) r) env lt good fresh miss
        (and_then-Roomy larger r promoted_ok)
  set_at-Changed table larger (some idx) env lt good fresh hit =
      replace-Changed idx (promote fuel (some table) s) env (omega arith) good fresh hit
        (promote-Promoted fuel table s n env (omega arith))

  -- What `setenv` does, from what `getenv` found before: an existing value is kept, with the whole
  -- environment, unless it may be overwritten.
  abbrev pub Settled : Bool → Option (List ℕ) → Result ℕ × Env → Type 0
  Settled true old r = Changed fuel s n name value r
  Settled false none r = Changed fuel s n name value r
  Settled false (some v) r = r ≡ (ok 0, s)

  set_at-Settled :
      (overwrite : Bool) (m : Memory) (f : Option ℕ)
      → Changed fuel s n name value (set_at fuel m name value true s f)
      → Settled overwrite (value_at s name f) (set_at fuel m name value overwrite s f)
  set_at-Settled true m f c = c
  set_at-Settled false m none c = c
  set_at-Settled false m (some i) c = refl

  -- With fuel for one entry more and the NULL, where each allocation succeeds and the new string is
  -- not an entry yet, `setenv` of a valid name succeeds. Without overwrite and with a value that
  -- `getenv` finds nothing changes. Else a `getenv` of the name then finds the new value and one of
  -- another name what it found before, and the environment is well formed.
  pub setenv-Settled :
      (overwrite : Bool) (table larger : ℕ → Ptr)
      → IsEnv s n
      → suc n < fuel
      → bad_name name ≡ false
      → Fresh
      → Settled overwrite (getenv fuel s name) (
          setenv fuel
            (record { table = some table; larger = some larger; entry = some p })
            name
            value
            overwrite
            s)
  unfolding setenv getenv
  setenv-Settled overwrite table larger env lt good fresh =
      let m : Memory = record { table = some table; larger = some larger; entry = some p } in
      coe 1 0
        (k.
          let f = find_hit-first fuel s n name env (omega arith) k in
          Settled overwrite (if good k then none else value_at s name f)
            (if good k then (err einval, s) else set_at fuel m name value overwrite s f))
        (set_at-Settled overwrite m (first (named s name) n)
          (set_at-Changed table larger (first (named s name) n) env lt good fresh refl))
