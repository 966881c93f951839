-- ===== src/User/String/Search/Chars.antt =====
-- `memchr`, `strchr`, `strrchr` and `strstr`.
use exyde.Common.{
  ℕ, zero, suc, ◌%◌, ◌<◌, ◌≡◌, refl, ap, sym, List, [], ◌∷◌, ◌++◌, ◌==◌, if◌then◌else◌, ◌&&◌,
  Option, some, none, Bool, true, false, arith, length, Bool-cases, inl, inr, bytes,
}
use exyde.User.String.{Mem, IsString}
use exyde.User.String.Memory.{memchr}
use exyde.User.String.Search.{strchr, strrchr_loop, strrchr, matches, strstr_loop, strstr}
use exyde.User.String.Search.Spans.{first_address}

pub memchr-first :
    (mem : Mem) (p c n : ℕ) → memchr mem p c n ≡ first_address (λ b. b == c % 256) p (bytes mem p n)
unfolding memchr
memchr-first mem p c zero = refl
memchr-first mem p c (suc n) = ground (arith, memchr-first mem (suc p) c n)

-- On a string, with fuel for its bytes and the NUL, `strchr` ends with the address of the first of
-- these, the NUL among them, that equals the low byte of `c`.
pub strchr-first :
    (fuel : ℕ) (mem : Mem) (s c : ℕ) (cs : List ℕ)
    → IsString mem s cs
    → length cs < fuel
    → strchr fuel mem s c ≡ some (first_address (λ b. b == c % 256) s (cs ++ (0 ∷ [])))
unfolding strchr
strchr-first zero mem s c cs str lt = absurd (omega arith)
strchr-first (suc fuel) mem s c [] str lt = ground arith
strchr-first (suc fuel) mem s c (b ∷ cs) (at, nz, str) lt =
    ground (arith, strchr-first fuel mem (suc s) c cs str (omega arith))

-- The last address of a byte of the string at `s` that equals `ch`, or `last` if there is none.
abbrev pub last_address : ℕ → ℕ → List ℕ → Option ℕ → Option ℕ
last_address ch s [] last = last
last_address ch s (c ∷ cs) last = last_address ch (suc s) cs (if c == ch then some s else last)

strrchr_loop-last :
    (fuel : ℕ) (mem : Mem) (s ch : ℕ) (cs : List ℕ) (last : Option ℕ)
    → IsString mem s cs
    → length cs < fuel
    → strrchr_loop fuel mem s ch last ≡ some (last_address ch s (cs ++ (0 ∷ [])) last)
unfolding strrchr_loop
strrchr_loop-last zero mem s ch cs last str lt = absurd (omega arith)
strrchr_loop-last (suc fuel) mem s ch [] last str lt = ground arith
strrchr_loop-last (suc fuel) mem s ch (c ∷ cs) last (at, nz, str) lt =
    let last' = if mem s == ch then some s else last in
    ground (arith, strrchr_loop-last fuel mem (suc s) ch cs last' str (omega arith))

-- The second list starts with the first.
abbrev pub starts_with : List ℕ → List ℕ → Bool
starts_with [] cs = true
starts_with (d ∷ ds) [] = false
starts_with (d ∷ ds) (c ∷ cs) = (c == d) && starts_with ds cs

-- The address of the first suffix of a list at `s` that starts with `ds`.
abbrev pub first_match : List ℕ → ℕ → List ℕ → Option ℕ
first_match ds s [] = if length ds == 0 then some s else none
first_match ds s (c ∷ cs) = if starts_with ds (c ∷ cs) then some s else first_match ds (suc s) cs

matches-starts_with :
    (fuel : ℕ) (mem : Mem) (h n : ℕ) (cs ds : List ℕ)
    → IsString mem h cs
    → IsString mem n ds
    → length ds < fuel
    → matches fuel mem h n ≡ some (starts_with ds cs)
unfolding matches
matches-starts_with zero mem h n cs ds x y lt = absurd (omega arith)
matches-starts_with (suc fuel) mem h n [] [] x y lt = ground arith
matches-starts_with (suc fuel) mem h n [] (d ∷ ds) x y lt = ground (arith, y.0, y.1)
matches-starts_with (suc fuel) mem h n (c ∷ cs) [] x y lt = ground (arith, x.0, x.1)
matches-starts_with (suc fuel) mem h n (c ∷ cs) (d ∷ ds) (x, nx, xs) (y, ny, ys) lt =
    ground (arith, matches-starts_with fuel mem (suc h) (suc n) cs ds xs ys (omega arith))

strstr_loop-first :
    (fuel k : ℕ) (mem : Mem) (h n : ℕ) (cs : List ℕ) (d : ℕ) (ds : List ℕ)
    → IsString mem h cs
    → IsString mem n (d ∷ ds)
    → length (d ∷ ds) < fuel
    → length cs < k
    → strstr_loop fuel k mem h n ≡ some (first_match (d ∷ ds) h cs)
unfolding strstr_loop
strstr_loop-first fuel zero mem h n cs d ds x y lt lt' = absurd (omega arith)
strstr_loop-first fuel (suc k) mem h n [] d ds x y lt lt' = ground arith
strstr_loop-first fuel (suc k) mem h n (c ∷ cs) d ds x y lt lt' =
    let z : (mem h == 0) ≡ false = ground (arith, x.0, x.1) in
    rw (z, matches-starts_with fuel mem h n (c ∷ cs) (d ∷ ds) x y lt)
      (elim (Bool-cases (starts_with (d ∷ ds) (c ∷ cs))) [
        | inl f ↦ rw f refl
        | inr o ↦ rw o (strstr_loop-first fuel k mem (suc h) n cs d ds x.2 y lt (omega arith))
      ])

first_match-empty : (s : ℕ) (cs : List ℕ) → first_match [] s cs ≡ some s
first_match-empty s [] = refl
first_match-empty s (c ∷ cs) = refl

-- On two strings, with fuel for the bytes of each and a NUL, `strstr` ends with the address of the
-- first suffix of the first string that starts with the second.
pub strstr-first_match :
    (fuel : ℕ) (mem : Mem) (h n : ℕ) (cs ds : List ℕ)
    → IsString mem h cs
    → IsString mem n ds
    → length cs < fuel
    → length ds < fuel
    → strstr fuel mem h n ≡ some (first_match ds h cs)
unfolding strstr
strstr-first_match fuel mem h n cs [] x y lt lt' =
    let z : (mem n == 0) ≡ true = ground arith in rw z (sym (ap some (first_match-empty h cs)))
strstr-first_match fuel mem h n cs (d ∷ ds) x y lt lt' =
    let z : (mem n == 0) ≡ false = ground (arith, y.0, y.1) in
    rw z (strstr_loop-first fuel fuel mem h n cs d ds x y lt' lt)

-- On a string, with fuel for its bytes and the NUL, `strrchr` ends with the address of the last of
-- these, the NUL among them, that equals the low byte of `c`.
pub strrchr-last :
    (fuel : ℕ) (mem : Mem) (s c : ℕ) (cs : List ℕ)
    → IsString mem s cs
    → length cs < fuel
    → strrchr fuel mem s c ≡ some (last_address (c % 256) s (cs ++ (0 ∷ [])) none)
strrchr-last fuel mem s c cs str lt = strrchr_loop-last fuel mem s (c % 256) cs none str lt
