-- ===== src/Kernel/Handle/Lookup.antt =====
-- What `handle_lookup_full` finds after each operation on the table.
use exyde.Common.{
  ℕ, ◌<◌, ◌≡◌, Bool, true, false, Option, none, some, arith, bit_and, ◌==◌, if◌then◌else◌,
  Bool-cases, inl, inr,
}
use exyde.Common.Bits.{bit_and_zero}
use exyde.Kernel.Handle.{
  Object, HandleTable, Found, handle_max, handle_create_ex, handle_table_has_free_slot,
  handle_lookup_full, handle_close, handle_disown,
}
use exyde.Kernel.Handle.Create.{Stored, new_entry, create-Stored}

-- The entry of a handle is found exactly when the rights asked for are all granted.
abbrev pub granted : ℕ → ℕ → Object → ℕ → Option Found
granted kind rights object required =
    if bit_and rights required == required
    then some (record { object = object; kind = kind; rights = rights })
    else none

Stored-lookup :
    (t t' : HandleTable) (kind rights : ℕ) (object : Object) (owns : Bool) (h j required : ℕ)
    → Stored t (new_entry kind rights object owns) h t'
    → handle_lookup_full t' j required
      ≡ (if h == j then granted kind rights object required else handle_lookup_full t j required)
unfolding handle_lookup_full
Stored-lookup t t' kind rights object owns h j required s = elim (Bool-cases (h == j)) [
  | inl e ↦ ground (arith, s.entries j)
  | inr e ↦ ground (arith, s.entries j)
]

module _ (t : HandleTable) (kind rights : ℕ) (object : Object) (owns : Bool) where
  -- With a free slot, `handle_create_ex` returns a handle in range that was not open: no lookup
  -- found anything under it, whatever the rights. Afterwards a lookup of it finds the object exactly when every required
  -- right was granted, and a lookup of any other handle is as before.
  pub lookup-create :
      handle_table_has_free_slot t ≡ true
      → (j required : ℕ)
      → let (h, t') = handle_create_ex t kind rights object owns in
        (h < handle_max)
        × ((r : ℕ) → handle_lookup_full t h r ≡ none)
        × (handle_lookup_full t' j required ≡ (
            if h == j
            then granted kind rights object required
            else handle_lookup_full t j required))
  unfolding handle_lookup_full
  lookup-create free j required =
      let s = create-Stored t kind rights object owns free in
      (
        s.in_range,
        λ r. ground (arith, s.was_free),
        Stored-lookup t _ kind rights object owns _ j required s,
      )

-- After `handle_close` the handle is not found with any rights; all other handles are as before.
pub lookup-close :
    (t : HandleTable) (h j required : ℕ)
    → handle_lookup_full (handle_close t h).2 j required
      ≡ (if h == j then none else handle_lookup_full t j required)
unfolding handle_lookup_full handle_close
lookup-close t h j required = elim (Bool-cases (h == j)) [
  | inl e ↦ ground arith
  | inr e ↦ ground arith
]

-- `handle_disown` changes what no lookup finds.
pub lookup-disown :
    (t : HandleTable) (h j required : ℕ)
    → handle_lookup_full (handle_disown t h).1 j required ≡ handle_lookup_full t j required
unfolding handle_lookup_full handle_disown
lookup-disown t h j required = elim (Bool-cases (h == j)) [
  | inl e ↦ ground arith
  | inr e ↦ ground arith
]

-- `handle_close` reports success exactly when a lookup that asks for no right finds the handle.
pub close-lookup :
    (t : HandleTable) (h : ℕ)
    → (handle_close t h).0 ≡ elim (handle_lookup_full t h 0) [ none ↦ false | some f ↦ true ]
unfolding handle_lookup_full handle_close
close-lookup t h = ground (arith, bit_and_zero (t.entries h).rights)
