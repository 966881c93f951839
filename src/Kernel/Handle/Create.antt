-- ===== src/Kernel/Handle/Create.antt =====
-- `handle_create_ex` and `handle_table_has_free_slot`: the scan from the hint meets every slot.
use exyde.Common.{
  ℕ, zero, suc, ◌+◌, ◌-◌, ◌%◌, ◌≤◌, ◌<◌, ◌≡◌, refl, Bool, true, false, arith, ◌==◌, if◌then◌else◌,
  Bool-cases, inl, inr,
}
use exyde.Kernel.Handle.{
  Object, HandleEntry, HandleTable, handle_max, handle_invalid, slot, create_loop, handle_create_ex,
  free_slot_loop, handle_table_has_free_slot,
}

-- The entry that `handle_create_ex` stores.
abbrev pub new_entry : ℕ → ℕ → Object → Bool → HandleEntry
new_entry kind rights object owns = record {
  kind = kind;
  rights = rights;
  object = object;
  in_use = true;
  owns_object = owns;
}

-- `t'` is `t` with `e` stored in the free slot `h`.
pub record Stored (t : HandleTable) (e : HandleEntry) (h : ℕ) (t' : HandleTable) : Type 0 where
  pub in_range : h < handle_max
  pub was_free : (t.entries h).in_use ≡ false
  pub entries : (j : ℕ) → t'.entries j ≡ (if h == j then e else t.entries j)
  pub hint : t'.next_hint ≡ (h + 1) % handle_max
  pub release : t'.release ≡ t.release

free_slot_loop-true :
    (n i : ℕ) (t : HandleTable)
    → free_slot_loop n i t ≡ true
    → (j : ℕ) × (i ≤ j) × (j < i + n) × ((t.entries j).in_use ≡ false)
unfolding free_slot_loop
free_slot_loop-true zero i t h = absurd (ground arith)
free_slot_loop-true (suc n) i t h = elim (Bool-cases (t.entries i).in_use) [
  | inl used ↦
      let (j, lo, hi, e) = free_slot_loop-true n (i + 1) t (ground arith) in
      (j, omega arith, omega arith, e)
  | inr e ↦ (i, omega arith, omega arith, e)
]

free_slot_loop-false :
    (n i : ℕ) (t : HandleTable) (j : ℕ)
    → free_slot_loop n i t ≡ false
    → i ≤ j
    → j < i + n
    → (t.entries j).in_use ≡ true
unfolding free_slot_loop
free_slot_loop-false zero i t j h lo hi = absurd (omega arith)
free_slot_loop-false (suc n) i t j h lo hi = elim (Bool-cases (i == j)) [
  | inl here ↦ ground arith
  | inr later ↦ ground (arith, free_slot_loop-false n (i + 1) t j)
]

create_loop_all_used :
    (n i : ℕ) (t : HandleTable) (e : HandleEntry)
    → ((j : ℕ) → j < handle_max → (t.entries j).in_use ≡ true)
    → create_loop n i t e ≡ (handle_invalid, t)
unfolding create_loop
create_loop_all_used zero i t e used = refl
create_loop_all_used (suc n) i t e used =
    ground (arith, used (slot t i), create_loop_all_used n (i + 1) t e used)

-- If some later round reaches a free slot, the loop stores into one.
create_loop-Stored :
    (n i k : ℕ) (t : HandleTable) (e : HandleEntry)
    → i ≤ k
    → k < i + n
    → (t.entries (slot t k)).in_use ≡ false
    → let (h, t') = create_loop n i t e in Stored t e h t'
unfolding create_loop
create_loop-Stored zero i k t e lo hi free = absurd (omega arith)
create_loop-Stored (suc n) i k t e lo hi free = elim (Bool-cases (t.entries (slot t i)).in_use) [
  | inl used ↦ elim (Bool-cases (i == k)) [
    | inl here ↦ absurd (ground arith)
    | inr later ↦ rw used (create_loop-Stored n (i + 1) k t e (ground arith) (omega arith) free)
  ]
  | inr here ↦ rw here (record {
    in_range = omega arith;
    was_free = here;
    entries = λ j. refl;
    hint = omega arith;
    release = refl;
  })
]

-- The round at which the scan reaches slot `j`.
slot-reaches :
    (t : HandleTable) (j : ℕ) → j < handle_max → slot t ((j + 64 - t.next_hint % 64) % 64) ≡ j
slot-reaches t j h = omega arith

module _ (t : HandleTable) (kind rights : ℕ) (object : Object) (owns : Bool) where
  -- With a free slot, the new entry is stored in some free slot, no other entry changes, and the
  -- hint moves behind the slot.
  pub create-Stored :
      handle_table_has_free_slot t ≡ true
      → let (h, t') = handle_create_ex t kind rights object owns in
        Stored t (new_entry kind rights object owns) h t'
  unfolding handle_create_ex handle_table_has_free_slot
  create-Stored free =
      let (j, lo, hi, e) = free_slot_loop-true handle_max 0 t free in
      create_loop-Stored handle_max 0 ((j + 64 - t.next_hint % 64) % 64) t _ (omega arith)
        (omega arith) (rw (slot-reaches t j (omega arith)) e)

  -- With no free slot the result is HANDLE_INVALID and the table is unchanged.
  pub create-full :
      handle_table_has_free_slot t ≡ false
      → handle_create_ex t kind rights object owns ≡ (handle_invalid, t)
  unfolding handle_create_ex handle_table_has_free_slot
  create-full full =
      create_loop_all_used handle_max 0 t _
        (λ j lt. free_slot_loop-false handle_max 0 t j full (omega arith) (omega arith))
