-- ===== src/User/Env.antt =====
-- The environment of a process, src/userspace/libc/env.c. A string is the list of its bytes, found
-- by its address. What the allocations return is an argument: the garbage in a new array, or none,
-- and the address of a new string. The loops up to the NULL of the array have fuel.
pub mod Lookup
pub mod Names
pub mod Room
pub mod Change
pub mod Set
mod Tests
use exyde.Common.{
  ℕ, zero, suc, ◌+◌, ◌-◌, ◌*◌, Bool, true, false, not, ◌&&◌, ◌||◌, List, [], ◌∷◌, ◌++◌, Option,
  some, none, leb, ltb, ◌==◌, if◌then◌else◌, update, length, drop, get_or,
}
use exyde.Kernel.Chain.{Ptr, null}
use exyde.Kernel.Errno.{Result, ok, err, enomem, einval}
use exyde.User.String.Search.Spans.{member}
use exyde.User.String.Search.Chars.{starts_with}

-- The array that `environ` points to, if it is `present` and not NULL, and the static variables. The
-- strings are in `text`, and `freed` lists those that have been given to `free`.
pub record Env : Type 0 where
  pub present : Bool
  pub arr : ℕ → Ptr
  pub owned : ℕ → Bool
  pub cap : ℕ
  pub count : ℕ
  pub is_owned : Bool
  pub text : Ptr → List ℕ
  pub freed : List Ptr

abbrev pub equals_sign : ℕ
equals_sign = 61

-- `!name || !*name || strchr(name, '=')` for a name that is not NULL.
abbrev pub bad_name : List ℕ → Bool
bad_name name = (length name == 0) || member equals_sign name

-- `strncmp(*e, name, nl) == 0 && (*e)[nl] == '='`
abbrev pub names : List ℕ → List ℕ → Bool
names entry name = starts_with name entry && (get_or entry (length name) 0 == equals_sign)

unfoldable pub count_loop : ℕ → (ℕ → Ptr) → ℕ → ℕ
count_loop zero e n = n
count_loop (suc fuel) e n = let rest = count_loop fuel e (n + 1) in if e n == null then n else rest

abbrev pub count_env : ℕ → Env → ℕ
count_env fuel s = if not s.present then 0 else count_loop fuel s.arr 0

-- The index of the first entry of this name, from `i` on.
unfoldable pub find_env : ℕ → Env → List ℕ → ℕ → Option ℕ
find_env zero s name i = none
find_env (suc fuel) s name i =
    let rest = find_env fuel s name (suc i) in
    if s.arr i == null then none else if names (s.text (s.arr i)) name then some i else rest

abbrev pub find_hit : ℕ → Env → List ℕ → Option ℕ
find_hit fuel s name = if not s.present then none else find_env fuel s name 0

abbrev pub value_at : Env → List ℕ → Option ℕ → Option (List ℕ)
value_at s name none = none
value_at s name (some i) = some (drop (length name + 1) (s.text (s.arr i)))

unfoldable pub getenv : ℕ → Env → List ℕ → Option (List ℕ)
getenv fuel s name = if bad_name name then none else value_at s name (find_hit fuel s name)

-- The copy of the array to the one that `malloc` returned; `calloc` clears the flags.
abbrev pub promoted : ℕ → Env → (ℕ → Ptr) → Env
promoted n s new = record s {
  arr = update (λ i. if ltb i n then s.arr i else new i) n null;
  owned = λ i. false;
  cap = n + 8;
  count = n;
  is_owned = true;
  present = true;
}

unfoldable pub promote : ℕ → Option (ℕ → Ptr) → Env → Result ℕ × Env
promote fuel none s = if s.is_owned then (ok 0, s) else (err enomem, s)
promote fuel (some new) s =
    if s.is_owned then (ok 0, s) else (ok 0, promoted (count_env fuel s) s new)

-- The copies to the larger arrays.
abbrev pub enlarged : Env → (ℕ → Ptr) → Env
enlarged s new = record s {
  arr = λ i. if ltb i s.cap then s.arr i else new i;
  owned = λ i. if ltb i s.cap then s.owned i else false;
  cap = if s.cap == 0 then 16 else s.cap * 2;
}

unfoldable pub ensure_slot : Option (ℕ → Ptr) → Env → Result ℕ × Env
ensure_slot none s = if leb (s.count + 2) s.cap then (ok 0, s) else (err enomem, s)
ensure_slot (some new) s = if leb (s.count + 2) s.cap then (ok 0, s) else (ok 0, enlarged s new)

abbrev pub entry_of : List ℕ → List ℕ → List ℕ
entry_of name value = name ++ (equals_sign ∷ value)

-- `if (env_owned[idx]) free(env_arr[idx]);`
abbrev pub release_if : Bool → ℕ → Env → Env
release_if true idx s = record s { freed = s.arr idx ∷ s.freed }
release_if false idx s = s

abbrev pub release : ℕ → Env → Env
release idx s = release_if (s.owned idx) idx s

abbrev pub with_entry : ℕ → Ptr → List ℕ → Env → Env
with_entry idx p entry s = record s {
  arr = update s.arr idx p;
  owned = update s.owned idx true;
  text = update s.text p entry;
}

abbrev pub with_last : Ptr → List ℕ → Env → Env
with_last p entry s = record s {
  arr = update (update s.arr s.count p) (s.count + 1) null;
  owned = update s.owned s.count true;
  count = s.count + 1;
  text = update s.text p entry;
}

abbrev pub replace_entry : ℕ → List ℕ → List ℕ → Option Ptr → Result ℕ × Env → Result ℕ × Env
replace_entry idx name value got (err e, s) = (err e, s)
replace_entry idx name value none (ok z, s) = (err enomem, s)
replace_entry idx name value (some p) (ok z, s) =
    (ok 0, with_entry idx p (entry_of name value) (release idx s))

abbrev pub append_entry : List ℕ → List ℕ → Option Ptr → Result ℕ × Env → Result ℕ × Env
append_entry name value got (err e, s) = (err e, s)
append_entry name value none (ok z, s) = (err enomem, s)
append_entry name value (some p) (ok z, s) = (ok 0, with_last p (entry_of name value) s)

abbrev pub and_then : (Env → Result ℕ × Env) → Result ℕ × Env → Result ℕ × Env
and_then f (err e, s) = (err e, s)
and_then f (ok z, s) = f s

-- The arrays of `promote` and of `ensure_slot`, and the string of `make_entry`.
pub record Memory : Type 0 where
  pub table : Option (ℕ → Ptr)
  pub larger : Option (ℕ → Ptr)
  pub entry : Option Ptr

abbrev pub set_at : ℕ → Memory → List ℕ → List ℕ → Bool → Env → Option ℕ → Result ℕ × Env
set_at fuel m name value overwrite s none =
    append_entry name value m.entry (and_then (ensure_slot m.larger) (promote fuel m.table s))
set_at fuel m name value overwrite s (some idx) =
    if not overwrite
    then (ok 0, s)
    else replace_entry idx name value m.entry (promote fuel m.table s)

-- `setenv` with a value that is not NULL.
unfoldable pub setenv : ℕ → Memory → List ℕ → List ℕ → Bool → Env → Result ℕ × Env
setenv fuel m name value overwrite s =
    if bad_name name
    then (err einval, s)
    else set_at fuel m name value overwrite s (find_hit fuel s name)

-- `for (i = idx; i + 1 < env_count; ++i)` with `k` rounds left.
unfoldable pub shift_loop : ℕ → ℕ → Env → Env
shift_loop zero i s = s
shift_loop (suc k) i s =
    shift_loop k (i + 1) (record s {
      arr = update s.arr i (s.arr (i + 1));
      owned = update s.owned i (s.owned (i + 1));
    })

abbrev pub drop_last : Env → Env
drop_last s =
    let n = s.count - 1 in
    record s { count = n; arr = update s.arr n null; owned = update s.owned n false }

abbrev pub remove_entry : ℕ → Env → Result ℕ × Env
remove_entry idx s =
    let s₁ = release idx s in (ok 0, drop_last (shift_loop (s₁.count - 1 - idx) idx s₁))

abbrev pub unset_at : ℕ → Option (ℕ → Ptr) → Env → Option ℕ → Result ℕ × Env
unset_at fuel table s none = (ok 0, s)
unset_at fuel table s (some idx) = and_then (remove_entry idx) (promote fuel table s)

unfoldable pub unsetenv : ℕ → Option (ℕ → Ptr) → List ℕ → Env → Result ℕ × Env
unsetenv fuel table name s =
    if bad_name name then (err einval, s) else unset_at fuel table s (find_hit fuel s name)
