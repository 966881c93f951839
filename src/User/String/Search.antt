-- ===== src/User/String/Search.antt =====
-- `strchr`, `strrchr`, `strstr`, `strpbrk`, `strspn`, `strcspn` and `strtok`. A result is none where
-- a loop runs out of fuel; an address in it is none for NULL.
pub mod Spans
pub mod Chars
pub mod Tokens
use exyde.Common.{
  ℕ, zero, suc, ◌+◌, ◌%◌, ◌==◌, if◌then◌else◌, ◌&&◌, Option, some, none, Bool, true, false, not,
  update,
}
use exyde.User.String.{Mem}

unfoldable pub strchr : ℕ → Mem → ℕ → ℕ → Option (Option ℕ)
strchr zero mem s c = none
strchr (suc fuel) mem s c =
    let rest = strchr fuel mem (suc s) c in
    if mem s == c % 256 then some (some s) else if mem s == 0 then some none else rest

-- The loop of `strrchr`.
unfoldable pub strrchr_loop : ℕ → Mem → ℕ → ℕ → Option ℕ → Option (Option ℕ)
strrchr_loop zero mem s ch last = none
strrchr_loop (suc fuel) mem s ch last =
    let last' = if mem s == ch then some s else last in
    let rest = strrchr_loop fuel mem (suc s) ch last' in if mem s == 0 then some last' else rest

abbrev pub strrchr : ℕ → Mem → ℕ → ℕ → Option (Option ℕ)
strrchr fuel mem s c = strrchr_loop fuel mem s (c % 256) none

-- `for (a = set; *a; ++a) if (*a == x)`: whether it finds one.
unfoldable pub is_in : ℕ → Mem → ℕ → ℕ → Option Bool
is_in zero mem a x = none
is_in (suc fuel) mem a x =
    let rest = is_in fuel mem (suc a) x in
    if mem a == 0 then some false else if mem a == x then some true else rest

abbrev pub choose {ℓ} : {A : Type ℓ} → Option Bool → Option A → Option A → Option A
choose none found missed = none
choose (some true) found missed = found
choose (some false) found missed = missed

-- `while (*h && *n && *h == *n) { ++h; ++n; }`: whether `!*n` behind it.
unfoldable pub matches : ℕ → Mem → ℕ → ℕ → Option Bool
matches zero mem h n = none
matches (suc fuel) mem h n =
    let rest = matches fuel mem (suc h) (suc n) in
    if not (mem h == 0) && not (mem n == 0) && (mem h == mem n) then rest else some (mem n == 0)

-- The loop of `strstr`.
unfoldable pub strstr_loop : ℕ → ℕ → Mem → ℕ → ℕ → Option (Option ℕ)
strstr_loop fuel zero mem haystack needle = none
strstr_loop fuel (suc k) mem haystack needle =
    let rest = strstr_loop fuel k mem (suc haystack) needle in
    if mem haystack == 0
    then some none
    else choose (matches fuel mem haystack needle) (some (some haystack)) rest

unfoldable pub strstr : ℕ → Mem → ℕ → ℕ → Option (Option ℕ)
strstr fuel mem haystack needle =
    if mem needle == 0 then some (some haystack) else strstr_loop fuel fuel mem haystack needle

-- The loops of `strpbrk`, `strspn` and `strcspn`; the fuel `k` is for the string.
unfoldable pub strpbrk_loop : ℕ → ℕ → Mem → ℕ → ℕ → Option (Option ℕ)
strpbrk_loop fuel zero mem s accept = none
strpbrk_loop fuel (suc k) mem s accept =
    let rest = strpbrk_loop fuel k mem (suc s) accept in
    if mem s == 0 then some none else choose (is_in fuel mem accept (mem s)) (some (some s)) rest

abbrev pub strpbrk : ℕ → Mem → ℕ → ℕ → Option (Option ℕ)
strpbrk fuel mem s accept = strpbrk_loop fuel fuel mem s accept

unfoldable pub strspn_loop : ℕ → ℕ → Mem → ℕ → ℕ → ℕ → Option ℕ
strspn_loop fuel zero mem s accept n = none
strspn_loop fuel (suc k) mem s accept n =
    let rest = strspn_loop fuel k mem s accept (suc n) in
    if mem (s + n) == 0 then some n else choose (is_in fuel mem accept (mem (s + n))) rest (some n)

abbrev pub strspn : ℕ → Mem → ℕ → ℕ → Option ℕ
strspn fuel mem s accept = strspn_loop fuel fuel mem s accept 0

unfoldable pub strcspn_loop : ℕ → ℕ → Mem → ℕ → ℕ → ℕ → Option ℕ
strcspn_loop fuel zero mem s reject n = none
strcspn_loop fuel (suc k) mem s reject n =
    let rest = strcspn_loop fuel k mem s reject (suc n) in
    if mem (s + n) == 0 then some n else choose (is_in fuel mem reject (mem (s + n))) (some n) rest

abbrev pub strcspn : ℕ → Mem → ℕ → ℕ → Option ℕ
strcspn fuel mem s reject = strcspn_loop fuel fuel mem s reject 0

-- The two loops of `strtok` from `save` on: over leading delimiters, and to the next one.
unfoldable pub skip_loop : ℕ → ℕ → Mem → ℕ → ℕ → Option ℕ
skip_loop fuel zero mem save delim = none
skip_loop fuel (suc k) mem save delim =
    let rest = skip_loop fuel k mem (suc save) delim in
    if mem save == 0 then some save else choose (is_in fuel mem delim (mem save)) rest (some save)

-- What `strtok` returns, its static `save`, and the memory.
unfoldable pub token_loop : ℕ → ℕ → Mem → ℕ → ℕ → ℕ → Option (Option ℕ × Option ℕ × Mem)
token_loop fuel zero mem start save delim = none
token_loop fuel (suc k) mem start save delim =
    let rest = token_loop fuel k mem start (suc save) delim in
    if mem save == 0
    then some (some start, none, mem)
    else choose (is_in fuel mem delim (mem save))
        (some (some start, some (suc save), update mem save 0)) rest

abbrev pub strtok_at : ℕ → Mem → ℕ → Option ℕ → Option (Option ℕ × Option ℕ × Mem)
strtok_at fuel mem delim none = none
strtok_at fuel mem delim (some start) =
    if mem start == 0 then some (none, none, mem) else token_loop fuel fuel mem start start delim

abbrev pub strtok_from : ℕ → Mem → ℕ → Option ℕ → Option (Option ℕ × Option ℕ × Mem)
strtok_from fuel mem delim none = some (none, none, mem)
strtok_from fuel mem delim (some save) =
    strtok_at fuel mem delim (skip_loop fuel fuel mem save delim)

-- The first argument is none for NULL.
unfoldable pub strtok : ℕ → Option ℕ → ℕ → Option ℕ → Mem → Option (Option ℕ × Option ℕ × Mem)
strtok fuel none delim save mem = strtok_from fuel mem delim save
strtok fuel (some s) delim save mem = strtok_from fuel mem delim (some s)
