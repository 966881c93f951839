-- ===== src/Kernel/Handle/Owners.antt =====
-- Who owns an object: every ownership that a table takes is given up once, by a release call or
-- by `handle_disown`.
use exyde.Common.{
  ℕ, ◌+◌, ◌≡◌, Bool, true, false, ◌&&◌, List, [], ◌∷◌, ◌++◌, arith, leb, ◌==◌, if◌then◌else◌,
  Bool-cases, inl, inr, update, total, total-update, total-congr,
}
use exyde.Kernel.Handle.{
  Object, Release, HandleEntry, HandleTable, handle_max, free_entry, handle_create_ex,
  handle_table_has_free_slot, handle_close, handle_disown,
}
use exyde.Kernel.Handle.Create.{Stored, create-Stored, create-full}

-- 1 if the entry owns `o`.
abbrev pub owns : Object → HandleEntry → ℕ
owns o e = if e.in_use && e.owns_object && e.object == o then 1 else 0

-- How many entries of the table own `o`.
unfoldable pub owners : Object → HandleTable → ℕ
owners o t = total (owns o) handle_max t.entries

-- How many of the calls release `o`.
abbrev pub count : Object → List Release → ℕ
count o [] = 0
count o ((kind, object) ∷ calls) = (if object == o then 1 else 0) + count o calls

pub count-append :
    (o : Object) (xs ys : List Release) → count o (xs ++ ys) ≡ count o xs + count o ys
count-append o [] ys = omega arith
count-append o ((kind, object) ∷ xs) ys = omega (arith, count-append o xs ys)

-- What the operations on a table are, and what each does.
pub data Op : Type 0 where
  create : ℕ → ℕ → Object → Bool → Op
  close : ℕ → Op
  disown : ℕ → Op

abbrev pub step : Op → HandleTable → List Release × HandleTable
step (create kind rights object own) t = ([], (handle_create_ex t kind rights object own).1)
step (close h) t = let (_, calls, t') = handle_close t h in (calls, t')
step (disown h) t = ([], (handle_disown t h).1)

-- The ownerships of `o` that an operation takes, and those that it gives up with no call.
abbrev pub taken : Object → Op → HandleTable → ℕ
taken o (create kind rights object own) t =
    if handle_table_has_free_slot t && own && object == o then 1 else 0
taken o (close h) t = 0
taken o (disown h) t = 0

abbrev pub waived : Object → Op → HandleTable → ℕ
waived o (create kind rights object own) t = 0
waived o (close h) t = 0
waived o (disown h) t = if leb handle_max h then 0 else owns o (t.entries h)

Stored-owners :
    (o : Object) (t t' : HandleTable) (e : HandleEntry) (h : ℕ)
    → Stored t e h t'
    → owners o t' ≡ owners o t + owns o e
unfolding owners
Stored-owners o t t' e h s = ground (
  arith,
  s.was_free,
  total-update (owns o) handle_max t.entries h e,
  total-congr (owns o) handle_max t'.entries (update t.entries h e)
      (λ i lt. ground (arith, s.entries i)),
)

pub create-owners :
    (o : Object) (t : HandleTable) (kind rights : ℕ) (object : Object) (own : Bool)
    → owners o (handle_create_ex t kind rights object own).1
      ≡ owners o t + taken o (create kind rights object own) t
create-owners o t kind rights object own = elim (Bool-cases (handle_table_has_free_slot t)) [
  | inl free ↦ ground (arith, Stored-owners o t _ _ _ (create-Stored t kind rights object own free))
  | inr full ↦ ground (arith, create-full t kind rights object own full)
]

pub close-owners :
    (o : Object) (t : HandleTable) (h : ℕ)
    → t.release ≡ true
    → count o (handle_close t h).1 + owners o (handle_close t h).2 ≡ owners o t
unfolding handle_close owners
close-owners o t h r = ground (arith, total-update (owns o) handle_max t.entries h free_entry)

pub disown-owners :
    (o : Object) (t : HandleTable) (h : ℕ)
    → owners o (handle_disown t h).1 + waived o (disown h) t ≡ owners o t
unfolding handle_disown owners
disown-owners o t h = ground (
  arith,
  total-update (owns o) handle_max t.entries h (record (t.entries h) { owns_object = false }),
)
