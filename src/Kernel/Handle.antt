-- ===== src/Kernel/Handle.antt =====
-- The capability table of src/kernel/core/handle.c and src/kernel/include/exyde/handle.h.
-- A table is never NULL here: every caller passes the address of a process's table.
pub mod Create
pub mod Lookup
pub mod Destroy
pub mod Owners
pub mod Run
mod Tests
use exyde.Common.{
  ℕ, zero, suc, ◌+◌, ◌%◌, ◌^◌, ◌≡◌, Bool, true, false, ◌&&◌, not, Option, none, some, List, [], ◌∷◌,
  ◌++◌, bit_and, leb, ◌==◌, if◌then◌else◌, update, fill,
}

-- `void *object`, as an address.
abbrev pub Object : Type 0
Object = ℕ

abbrev pub handle_invalid : ℕ
handle_invalid = 0xffff_ffff

abbrev pub handle_max : ℕ
handle_max = 64

abbrev pub handle_right_read : ℕ
handle_right_read = 1

abbrev pub handle_right_write : ℕ
handle_right_write = 2

abbrev pub handle_right_transfer : ℕ
handle_right_transfer = 8

abbrev pub handle_kind_none : ℕ
handle_kind_none = 0

abbrev pub handle_kind_channel : ℕ
handle_kind_channel = 2

abbrev pub handle_kind_process : ℕ
handle_kind_process = 3

-- `handle_entry_t`. The two flags only ever hold 0 and 1.
pub record HandleEntry : Type 0 where
  pub kind : ℕ
  pub rights : ℕ
  pub object : Object
  pub in_use : Bool
  pub owns_object : Bool

-- `handle_table_t`; `release` says whether the callback is set (not NULL).
pub record HandleTable : Type 0 where
  pub entries : ℕ → HandleEntry
  pub next_hint : ℕ
  pub release : Bool

-- A call `release(kind, object)` that an operation makes.
abbrev pub Release : Type 0
Release = ℕ × Object

-- What the code stores into an entry that it frees.
abbrev pub free_entry : HandleEntry
free_entry = record {
  kind = handle_kind_none;
  rights = 0;
  object = 0;
  in_use = false;
  owns_object = false;
}

unfoldable pub handle_table_init : Bool → HandleTable → HandleTable
handle_table_init release t = record {
  entries = fill handle_max 0 free_entry t.entries;
  next_hint = 0;
  release = release;
}

-- The slot that round `i` of the scan looks at.
abbrev pub slot : HandleTable → ℕ → ℕ
slot t i = (t.next_hint + i) % 2 ^ 32 % handle_max

-- The scan of `handle_create_ex`, with the rounds left, from round `i` on.
unfoldable pub create_loop : ℕ → ℕ → HandleTable → HandleEntry → ℕ × HandleTable
create_loop zero i t e = (handle_invalid, t)
create_loop (suc n) i t e =
    let rest = create_loop n (i + 1) t e in
    let idx = slot t i in
    if (t.entries idx).in_use then rest else (
      idx,
      record t { entries = update t.entries idx e; next_hint = (idx + 1) % 2 ^ 32 % handle_max },
    )

unfoldable pub handle_create_ex : HandleTable → ℕ → ℕ → Object → Bool → ℕ × HandleTable
handle_create_ex t kind rights object owns =
    create_loop handle_max 0 t
      (record { kind = kind; rights = rights; object = object; in_use = true; owns_object = owns })

unfoldable pub handle_create : HandleTable → ℕ → ℕ → Object → ℕ × HandleTable
unfolding handle_create_ex
handle_create t kind rights object = handle_create_ex t kind rights object true

unfoldable pub free_slot_loop : ℕ → ℕ → HandleTable → Bool
free_slot_loop zero i t = false
free_slot_loop (suc n) i t =
    let rest = free_slot_loop n (i + 1) t in if (t.entries i).in_use then rest else true

unfoldable pub handle_table_has_free_slot : HandleTable → Bool
handle_table_has_free_slot t = free_slot_loop handle_max 0 t

-- What `handle_lookup_full` writes through its out pointers.
pub record Found : Type 0 where
  pub object : Object
  pub kind : ℕ
  pub rights : ℕ

unfoldable pub handle_lookup_full : HandleTable → ℕ → ℕ → Option Found
handle_lookup_full t h required =
    if leb handle_max h
    then none
    else if not (t.entries h).in_use
    then none
    else if not (bit_and (t.entries h).rights required == required)
    then none
    else some (record {
      object = (t.entries h).object;
      kind = (t.entries h).kind;
      rights = (t.entries h).rights;
    })

-- `handle_lookup` asks for the object and the kind alone.
unfoldable pub handle_lookup : HandleTable → ℕ → ℕ → Option (Object × ℕ)
unfolding handle_lookup_full
handle_lookup t h required = elim (handle_lookup_full t h required) [
  | none ↦ none
  | some f ↦ some (f.object, f.kind)
]

-- The release calls that freeing an entry makes.
abbrev pub releases : HandleTable → HandleEntry → List Release
releases t e = if e.owns_object && t.release then (e.kind, e.object) ∷ [] else []

unfoldable pub handle_close : HandleTable → ℕ → Bool × List Release × HandleTable
handle_close t h =
    if leb handle_max h
    then (false, [], t)
    else if not (t.entries h).in_use
    then (false, [], t)
    else (true, releases t (t.entries h), record t { entries = update t.entries h free_entry })

unfoldable pub handle_disown : HandleTable → ℕ → Bool × HandleTable
handle_disown t h =
    if leb handle_max h then (false, t) else if not (t.entries h).in_use then (false, t) else (
      true,
      record t { entries = update t.entries h (record (t.entries h) { owns_object = false }) },
    )

-- The loop of `handle_table_destroy`: the release calls in order, and the table.
unfoldable pub destroy_loop : ℕ → ℕ → HandleTable → List Release × HandleTable
destroy_loop zero i t = ([], t)
destroy_loop (suc n) i t =
    let e = t.entries i in
    let (calls, t') =
      destroy_loop n (i + 1)
        (if e.in_use then record t { entries = update t.entries i free_entry } else t) in
    (if e.in_use then releases t e ++ calls else calls, t')

unfoldable pub handle_table_destroy : HandleTable → List Release × HandleTable
handle_table_destroy t =
    let (calls, t') = destroy_loop handle_max 0 t in (calls, record t' { next_hint = 0 })
