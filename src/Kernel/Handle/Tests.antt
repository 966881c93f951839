-- ===== src/Kernel/Handle/Tests.antt =====
-- Tables that exercise handle.c, and the theorems at them.
use exyde.Common.{
  ℕ, ◌+◌, ◌++◌, ◌<◌, ◌≡◌, refl, true, false, [], ◌∷◌, none, fill, update, ◌==◌, if◌then◌else◌,
}
use exyde.Kernel.Handle.{
  HandleEntry, HandleTable, free_entry, handle_invalid, handle_table_init, create_loop,
  handle_create_ex, handle_lookup_full, handle_max, handle_close, handle_disown, destroy_loop,
  handle_table_destroy, handle_table_has_free_slot, free_slot_loop,
}
use exyde.Kernel.Handle.Lookup.{granted, lookup-create}
use exyde.Kernel.Handle.Owners.{create, close, disown, count, owners}
use exyde.Kernel.Handle.Run.{run, all_taken, all_waived, run-released_once}

abbrev channel_entry : HandleEntry
channel_entry = record { kind = 2; rights = 11; object = 500; in_use = true; owns_object = true }

abbrev garbage : HandleTable
garbage = record { entries = λ _. channel_entry; next_hint = 7; release = false }

-- Slot 63 is used, and the next scan begins there.
abbrev wrapping : HandleTable
wrapping = record {
  entries = update (λ _. free_entry) 63 channel_entry;
  next_hint = 63;
  release = true;
}

init_clears : ((handle_table_init true garbage).entries 63).in_use ≡ false
unfolding handle_table_init fill
init_clears = refl

-- The scan goes round from 63 to 0.
create_wraps : (handle_create_ex wrapping 3 1 900 true).0 ≡ 0
unfolding handle_create_ex create_loop
create_wraps = refl

create_in_full_table : (handle_create_ex garbage 3 1 900 true).0 ≡ handle_invalid
unfolding handle_create_ex create_loop
create_in_full_table = refl

-- A right that was not granted is refused.
lookup_without_right : handle_lookup_full wrapping 63 4 ≡ none
unfolding handle_lookup_full
lookup_without_right = refl

destroy_releases : (handle_table_destroy wrapping).0 ≡ (2, 500) ∷ []
unfolding handle_table_destroy destroy_loop
destroy_releases = refl

-- Close releases; after disown it does not; the handle is then free.
run_close_disown :
    (run (close 63 ∷ create 2 1 500 true ∷ disown 0 ∷ close 0 ∷ []) wrapping).0 ≡ (2, 500) ∷ []
unfolding run handle_close handle_disown handle_create_ex create_loop
run_close_disown = refl

lookup-create_example :
    let (h, t') = handle_create_ex wrapping 3 1 900 true in
    (h < handle_max)
    × ((r : ℕ) → handle_lookup_full wrapping h r ≡ none)
    × (handle_lookup_full t' 63 8
        ≡ (if h == 63 then granted 3 1 900 8 else handle_lookup_full wrapping 63 8))
unfolding handle_table_has_free_slot free_slot_loop
lookup-create_example = lookup-create wrapping 3 1 900 true refl 63 8

run-released_once_example :
    let t = handle_table_init true garbage in
    let (calls, t') = run (create 2 1 500 true ∷ disown 0 ∷ close 0 ∷ create 2 1 500 true ∷ []) t in
    let (last, t'') = handle_table_destroy t' in
    (count 500 (calls ++ last)
        + all_waived 500 (create 2 1 500 true ∷ disown 0 ∷ close 0 ∷ create 2 1 500 true ∷ []) t
      ≡ all_taken 500 (create 2 1 500 true ∷ disown 0 ∷ close 0 ∷ create 2 1 500 true ∷ []) t)
    × (owners 500 t'' ≡ 0)
run-released_once_example =
    run-released_once 500 (create 2 1 500 true ∷ disown 0 ∷ close 0 ∷ create 2 1 500 true ∷ [])
      garbage
