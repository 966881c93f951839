-- ===== src/User/String/Search/Tokens.antt =====
-- `strtok`: the tokens of a string, one at a time.
use exyde.Common.{
  ℕ, zero, suc, ◌+◌, ◌≤◌, ◌<◌, ◌≡◌, ◌≢◌, refl, ap, ◌∙◌, sym, List, [], ◌∷◌, ◌==◌, if◌then◌else◌,
  ◌||◌, Option, some, none, Bool, true, false, not, arith, length, ltb, Bool-cases, inl, inr, take,
  drop, update, min, length-drop,
}
use exyde.User.String.{Mem, IsString}
use exyde.User.String.Strings.{IsString-drop, IsString-congr, IsString-get}
use exyde.User.String.Bounded.{IsString-take, get_or-past}
use exyde.User.String.Search.{token_loop, strtok_at, strtok}
use exyde.User.String.Search.Spans.{member, span_length, is_in-member, skip_loop-span}

pub span-le : (test : ℕ → Bool) (cs : List ℕ) → span_length test cs ≤ length cs
span-le test [] = omega arith
span-le test (c ∷ cs) = ground (arith, span-le test cs)

-- The bytes behind the leading delimiters, the token at their front, and the bytes behind the
-- delimiter that ends it.
abbrev pub behind : List ℕ → List ℕ → List ℕ
behind ds cs = drop (span_length (λ c. member c ds) cs) cs

abbrev pub token : List ℕ → List ℕ → List ℕ
token ds cs = take (span_length (λ c. not (member c ds)) cs) cs

abbrev pub after_token : List ℕ → List ℕ → List ℕ
after_token ds cs = drop (suc (span_length (λ c. not (member c ds)) cs)) cs

-- What `save` stands for: the rest of the string.
abbrev pub Saved : Mem → List ℕ → Option ℕ → Type 0
Saved mem cs none = cs ≡ []
Saved mem cs (some p) = IsString mem p cs

-- What `strtok` returns for the bytes `cs` at `s`, which are all delimiters or begin with a token
-- behind these.
abbrev pub IsToken : Mem → ℕ → List ℕ → List ℕ → Option ℕ × Option ℕ × Mem → Type 0
IsToken mem s ds cs (none, save, mem') = (behind ds cs ≡ []) × (save ≡ none) × (mem' ≡ mem)
IsToken mem s ds cs (some p, save, mem') =
    (behind ds cs ≢ [])
    × (p ≡ s + span_length (λ c. member c ds) cs)
    × IsString mem' p (token ds (behind ds cs))
    × Saved mem' (after_token ds (behind ds cs)) save
    × ((j : ℕ) → (ltb j p || ltb (s + length cs) j) ≡ true → mem' j ≡ mem j)

-- What the second loop leaves in `save` and in the memory, where the token at `p` has `b` bytes and
-- the string `n`.
abbrev pub cut_save : ℕ → ℕ → ℕ → Option ℕ
cut_save p b n = if b == n then none else some (suc (p + b))

abbrev pub cut_mem : ℕ → ℕ → ℕ → Mem → Mem
cut_mem p b n mem = if b == n then mem else update mem (p + b) 0

drop-past : (k : ℕ) (cs : List ℕ) → length cs ≤ k → drop k cs ≡ []
drop-past zero [] le = refl
drop-past zero (c ∷ cs) le = absurd (omega arith)
drop-past (suc k) [] le = refl
drop-past (suc k) (c ∷ cs) le = drop-past k cs (omega arith)

string_end : (mem : Mem) (p : ℕ) (cs : List ℕ) → IsString mem p cs → mem (p + length cs) ≡ 0
string_end mem p cs str =
    IsString-get mem p cs (length cs) str (omega arith) ∙ get_or-past cs (length cs) 0 (omega arith)

-- The token and the rest behind the cut.
cut-strings :
    (mem : Mem) (p b : ℕ) (cs : List ℕ)
    → IsString mem p cs
    → b ≤ length cs
    → let mem' = cut_mem p b (length cs) mem in
      IsString mem' p (take b cs)
      × Saved mem' (drop (suc b) cs) (cut_save p b (length cs))
      × ((j : ℕ) → (ltb j p || ltb (p + length cs) j) ≡ true → mem' j ≡ mem j)
cut-strings mem p b cs str le = elim (Bool-cases (b == length cs)) [
  | inl whole ↦
      let e : p + length cs ≡ p + min b (length cs) = ground arith in
      rw whole (
        IsString-take mem mem p p b cs str (λ k lt. refl)
            (ap mem (sym e) ∙ string_end mem p cs str),
        drop-past (suc b) cs (ground arith),
        λ j out. refl,
      )
  | inr part ↦
      let mem' = update mem (p + b) 0 in
      let e : p + suc b ≡ suc (p + b) = omega arith in
      rw part (
        IsString-take mem mem' p p b cs str (λ k lt. ground arith) (ground arith),
        coe 0 1 (k. IsString mem' (e k) (drop (suc b) cs)) (
            IsString-congr mem mem' (p + suc b) (p + suc b) (drop (suc b) cs) (λ k le. ground arith)
              (IsString-drop mem p (suc b) cs str (ground arith))),
        λ j out. ground arith,
      )
]

module _ (fuel : ℕ) (mem : Mem) (a : ℕ) (ds : List ℕ) (set : IsString mem a ds)
    (enough : length ds < fuel) where
  token_loop-cut :
      (k start p : ℕ) (cs : List ℕ)
      → IsString mem p cs
      → length cs < k
      → let b = span_length (λ c. not (member c ds)) cs in
        token_loop fuel k mem start p a
        ≡ some (some start, cut_save p b (length cs), cut_mem p b (length cs) mem)
  unfolding token_loop
  token_loop-cut zero start p cs str lt = absurd (omega arith)
  token_loop-cut (suc k) start p [] str lt = ground arith
  token_loop-cut (suc k) start p (c ∷ cs) (at, nz, str) lt =
      let b = span_length (λ c'. not (member c' ds)) cs in
      let z : (mem p == 0) ≡ false = ground arith in
      let f : suc p + b ≡ p + suc b = omega arith in
      let g : (suc b == suc (length cs)) ≡ (b == length cs) = ground arith in
      rw (z, is_in-member fuel mem a (mem p) ds set enough, at)
        (elim (Bool-cases (member c ds)) [
          | inl y ↦
              let e : p ≡ p + 0 = omega arith in
              let ne : (0 == suc (length cs)) ≡ false = ground arith in
              rw (y, ne) (ap (λ u. some (some start, some (suc u), update mem u 0)) e)
          | inr o ↦
              rw (o, g)
                (token_loop-cut k start (suc p) cs str (omega arith)
                  ∙ ap
                      (λ u. some (
                        some start,
                        if b == length cs then none else some (suc u),
                        if b == length cs then mem else update mem u 0,
                      ))
                      f)
        ])

  -- The result of `strtok_at` where the bytes behind the leading delimiters are `rest`.
  strtok_at-IsToken :
      (s : ℕ) (cs rest : List ℕ)
      → behind ds cs ≡ rest
      → let m = span_length (λ c. member c ds) cs in
        IsString mem (s + m) rest
        → length rest < fuel
        → m + length rest ≡ length cs
        → (r : Option ℕ × Option ℕ × Mem) × (strtok_at fuel mem a (some (s + m)) ≡ some r)
          × IsToken mem s ds cs r
  strtok_at-IsToken s cs [] e str lt all =
      let z : (mem (s + span_length (λ c. member c ds) cs) == 0) ≡ true = ground arith in
      ((none, none, mem), rw z refl, (e, refl, refl))
  strtok_at-IsToken s cs (r ∷ rs) e str lt all =
      let rest = r ∷ rs in
      let p = s + span_length (λ c. member c ds) cs in
      let b = span_length (λ c. not (member c ds)) rest in
      let mem' = cut_mem p b (length rest) mem in
      let save = cut_save p b (length rest) in
      let z : (mem p == 0) ≡ false = ground (arith, str.0, str.1) in
      let (tok, saved, other) =
        cut-strings mem p b rest str (span-le (λ c. not (member c ds)) rest) in
      (
        (some p, save, mem'),
        rw z (token_loop-cut fuel p p rest str lt),
        (
          λ f. let g = sym e ∙ f in cc,
          refl,
          coe 1 0 (k. IsString mem' p (token ds (e k))) tok,
          coe 1 0 (k. Saved mem' (after_token ds (e k)) save) saved,
          λ j out. other j (ground arith),
        ),
      )

  -- On a string, with fuel for its bytes, those of the delimiters and a NUL, a first call of
  -- `strtok` ends with the first token as a string in its place and `save` at the rest, or with NULL
  -- where there is none. It changes at most one byte of the string and none before the token.
  pub strtok-IsToken :
      (s : ℕ) (save : Option ℕ) (cs : List ℕ)
      → IsString mem s cs
      → length cs < fuel
      → (r : Option ℕ × Option ℕ × Mem) × (strtok fuel (some s) a save mem ≡ some r)
        × IsToken mem s ds cs r
  unfolding strtok
  strtok-IsToken s save cs str lt =
      let test : ℕ → Bool = λ c. member c ds in
      let m = span_length test cs in
      let le = span-le test cs in
      let (r, e, tok) =
        strtok_at-IsToken s cs (behind ds cs) refl (IsString-drop mem s m cs str le)
          (omega (arith, length-drop m cs)) (omega (arith, length-drop m cs)) in
      (
        r,
        ap (strtok_at fuel mem a) (skip_loop-span fuel mem a ds set enough fuel s cs str lt) ∙ e,
        tok,
      )
