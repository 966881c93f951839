-- ===== src/User/Env/Change.antt =====
-- What `setenv` does to the values that `getenv` finds.
use exyde.Common.{
  ℕ, suc, ◌+◌, ◌<◌, ◌≤◌, ◌≡◌, ◌≢◌, refl, ap, ap₂, ◌∙◌, sym, Bool, true, false, List, [], ◌∷◌,
  Option, some, none, ◌==◌, if◌then◌else◌, length, drop, arith, Bool-cases, inl, inr,
}
use exyde.Kernel.Chain.{Ptr, null}
use exyde.Kernel.Errno.{Result, ok, err}
use exyde.User.Ramfs.Dir.{same_name}
use exyde.User.Env.{Env, bad_name, names, value_at, getenv, entry_of}
use exyde.User.Env.Lookup.{first, first-congr, First, first-First, IsEnv, named, find_hit-first}
use exyde.User.Env.Names.{names_unique, names-entry_of, drop-entry_of}
use exyde.User.Env.{with_entry, with_last}
use exyde.User.Env.Lookup.{pick}

same_name-eq : (xs ys : List ℕ) → same_name xs ys ≡ true → xs ≡ ys
same_name-eq [] [] h = refl
same_name-eq [] (y ∷ ys) h = absurd (ground arith)
same_name-eq (x ∷ xs) [] h = absurd (ground arith)
same_name-eq (x ∷ xs) (y ∷ ys) h =
    ap₂ (λ a as'. a ∷ as') (ground arith) (same_name-eq xs ys (ground arith))

getenv-first :
    (fuel : ℕ) (s : Env) (n : ℕ) (name : List ℕ)
    → IsEnv s n
    → n < fuel
    → bad_name name ≡ false
    → getenv fuel s name ≡ value_at s name (first (named s name) n)
unfolding getenv
getenv-first fuel s n name env lt good =
    rw good (ap (value_at s name) (find_hit-first fuel s n name env lt))

-- Where the index that is found has the same entry, its value is the same.
value_at-same :
    (s s' : Env) (n : ℕ) (name : List ℕ) (f : Option ℕ)
    → First (named s name) n f
    → ((i : ℕ) → i < n → named s name i ≡ true → s'.text (s'.arr i) ≡ s.text (s.arr i))
    → value_at s' name f ≡ value_at s name f
value_at-same s s' n name none h same = refl
value_at-same s s' n name (some k) (lt, y) same =
    ap (λ t. some (drop (length name + 1) t)) (same k lt y)

-- The values of a name agree where its entries do.
pub getenv-same :
    (fuel : ℕ) (s s' : Env) (n : ℕ) (name : List ℕ)
    → IsEnv s n
    → IsEnv s' n
    → n < fuel
    → bad_name name ≡ false
    → ((i : ℕ) → i < n → named s' name i ≡ named s name i)
    → ((i : ℕ) → i < n → named s name i ≡ true → s'.text (s'.arr i) ≡ s.text (s.arr i))
    → getenv fuel s' name ≡ getenv fuel s name
getenv-same fuel s s' n name env env' lt good same value =
    getenv-first fuel s' n name env' lt good
    ∙ (ap (value_at s' name) (first-congr (named s' name) (named s name) n same)
        ∙ (value_at-same s s' n name (first (named s name) n) (first-First (named s name) n) value
            ∙ sym (getenv-first fuel s n name env lt good)))

-- A change of the value of a name: it is found, and the other names are as before.
abbrev pub Changed : ℕ → Env → ℕ → List ℕ → List ℕ → Result ℕ × Env → Type 0
Changed fuel s n name value (err e, s') = ⊥
Changed fuel s n name value (ok z, s') =
    (z ≡ 0)
    × ((n' : ℕ) × (n' ≤ n + 1) × IsEnv s' n')
    × ((other : List ℕ)
        → bad_name other ≡ false
        → getenv fuel s' other ≡ (if same_name other name then some value else getenv fuel s other))

-- The entry of one name is not that of another.
other_name :
    (e name other : List ℕ)
    → bad_name name ≡ false
    → bad_name other ≡ false
    → same_name other name ≡ false
    → names e name ≡ true
    → names e other ≡ false
other_name e name other good good' differ y = elim (Bool-cases (names e other)) [
  | inl z ↦
      let u = names_unique e name other (ground arith) (ground arith) y z in absurd (ground arith)
  | inr z ↦ z
]

pub with_entry-Changed :
    (fuel : ℕ) (s : Env) (n idx : ℕ) (name value : List ℕ) (p : Ptr) (freed : List Ptr)
    → IsEnv s n
    → n < fuel
    → bad_name name ≡ false
    → p ≢ null
    → ((i : ℕ) → i < n → s.arr i ≢ p)
    → first (named s name) n ≡ some idx
    → Changed fuel s n name value
        (ok 0, with_entry idx p (entry_of name value) (record s { freed = freed }))
with_entry-Changed fuel s n idx name value p freed env lt good ne fresh hit =
    let s' = with_entry idx p (entry_of name value) (record s { freed = freed }) in
    let (below, y) : First (named s name) n (some idx) =
      coe 0 1 (k. First (named s name) n (hit k)) (first-First (named s name) n) in
    let env' : IsEnv s' n = record {
      entries = λ i li. ground (arith, env.entries i li);
      end = ground (arith, env.end);
      present = env.present;
      counted = env.counted;
      room = env.room;
    } in
    let text_of : (i : ℕ) → i < n → (idx == i) ≡ false → s'.text (s'.arr i) ≡ s.text (s.arr i) =
      λ i li off. let f = fresh i li in ground arith in
    let new : (i : ℕ) → (idx == i) ≡ true → s'.text (s'.arr i) ≡ entry_of name value =
      λ i here. ground arith in
    let old : (i : ℕ) → (idx == i) ≡ true → (query : List ℕ) → named s query i ≡ named s query idx =
      λ i here query. let e : i ≡ idx = ground arith in ap (named s query) e in
    (
      refl,
      (n, omega arith, env'),
      λ other good'. elim (Bool-cases (same_name other name)) [
        | inl is ↦ rw is (
            ap (getenv fuel s') (same_name-eq other name is)
            ∙ (getenv-first fuel s' n name env' lt good
                ∙ (ap (value_at s' name) (
                      first-congr (named s' name) (named s name) n (λ i li.
                        elim (Bool-cases (idx == i)) [
                          | inl here ↦
                              ap (λ t. names t name) (new i here)
                              ∙ (names-entry_of name value ∙ sym (old i here name ∙ y))
                          | inr off ↦ ap (λ t. names t name) (text_of i li off)
                        ])
                      ∙ hit)
                    ∙ (ap (λ t. some (drop (length name + 1) t)) (new idx (ground arith))
                        ∙ ap some (drop-entry_of name value)))))
        | inr differ ↦
            let missing = other_name (s.text (s.arr idx)) name other good good' differ y in
            let missing' =
              other_name (entry_of name value) name other good good' differ
                (names-entry_of name value) in
            rw differ (
              getenv-same fuel s s' n other env env' lt good'
                (λ i li. elim (Bool-cases (idx == i)) [
                  | inl here ↦
                      ap (λ t. names t other) (new i here)
                      ∙ (missing' ∙ sym (old i here other ∙ missing))
                  | inr off ↦ ap (λ t. names t other) (text_of i li off)
                ])
                (λ i li found. elim (Bool-cases (idx == i)) [
                  | inl here ↦
                      let z = sym found ∙ (old i here other ∙ missing) in absurd (ground arith)
                  | inr off ↦ text_of i li off
                ]))
      ],
    )

pick-false : (f : Option ℕ) (b : Bool) (n : ℕ) → b ≡ false → pick f b n ≡ f
pick-false none b n e = rw e refl
pick-false (some k) b n e = refl

pub with_last-Changed :
    (fuel : ℕ) (s : Env) (n : ℕ) (name value : List ℕ) (p : Ptr)
    → IsEnv s n
    → s.count ≡ n
    → n + 2 ≤ s.cap
    → suc n < fuel
    → bad_name name ≡ false
    → p ≢ null
    → ((i : ℕ) → i < n → s.arr i ≢ p)
    → first (named s name) n ≡ none
    → Changed fuel s n name value (ok 0, with_last p (entry_of name value) s)
unfolding first
with_last-Changed fuel s n name value p env count room lt good ne fresh miss =
    let s' = with_last p (entry_of name value) s in
    let env' : IsEnv s' (suc n) = record {
      entries = λ i li. ground (arith, env.entries i);
      end = ground arith;
      present = env.present;
      counted = λ own. ground arith;
      room = λ own. ground arith;
    } in
    let text_of : (i : ℕ) → i < n → s'.text (s'.arr i) ≡ s.text (s.arr i) =
      λ i li. let f = fresh i li in ground arith in
    let new : s'.text (s'.arr n) ≡ entry_of name value = ground arith in
    let before : (query : List ℕ) → first (named s' query) n ≡ first (named s query) n = λ query.
      first-congr (named s' query) (named s query) n
        (λ i li. ap (λ t. names t query) (text_of i li)) in
    (
      refl,
      (suc n, omega arith, env'),
      λ other good'. elim (Bool-cases (same_name other name)) [
        | inl is ↦
            let at_end : first (named s' name) (suc n) ≡ some n =
              ap₂ (λ f b. pick f b n) (before name ∙ miss)
                (ap (λ t. names t name) new ∙ names-entry_of name value) in
            rw is (
              ap (getenv fuel s') (same_name-eq other name is)
              ∙ (getenv-first fuel s' (suc n) name env' lt good
                  ∙ (ap (value_at s' name) at_end
                      ∙ (ap (λ t. some (drop (length name + 1) t)) new
                          ∙ ap some (drop-entry_of name value)))))
        | inr differ ↦
            let missing =
              other_name (entry_of name value) name other good good' differ
                (names-entry_of name value) in
            let same : first (named s' other) (suc n) ≡ first (named s other) n =
              pick-false (first (named s' other) n) (named s' other n) n
                (ap (λ t. names t other) new ∙ missing)
              ∙ before other in
            rw differ (
              getenv-first fuel s' (suc n) other env' lt good'
              ∙ (ap (value_at s' other) same
                  ∙ (value_at-same s s' n other (first (named s other) n)
                        (first-First (named s other) n) (λ i li y. text_of i li)
                      ∙ sym (getenv-first fuel s n other env (omega arith) good'))))
      ],
    )
