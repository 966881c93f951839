-- ===== src/Kernel/Handle/Destroy.antt =====
-- `handle_table_destroy`: the table it leaves, and the calls it makes.
use exyde.Common.{
  ℕ, zero, suc, ◌+◌, ◌≤◌, ◌<◌, ◌≡◌, refl, true, false, ◌&&◌, arith, leb, ltb, if◌then◌else◌,
  Bool-cases, inl, inr, update, total, total-update, total-zero,
}
use exyde.Kernel.Handle.{
  Object, HandleTable, handle_max, free_entry, releases, destroy_loop, handle_table_destroy,
}
use exyde.Kernel.Handle.Owners.{owns, owners, count, count-append}

destroy_loop-release : (n i : ℕ) (t : HandleTable) → (destroy_loop n i t).1.release ≡ t.release
unfolding destroy_loop
destroy_loop-release zero i t = refl
destroy_loop-release (suc n) i t = elim (Bool-cases (t.entries i).in_use) [
  | inl e ↦
      ground (
        arith,
        destroy_loop-release n (i + 1) (record t { entries = update t.entries i free_entry }),
      )
  | inr e ↦ ground (arith, destroy_loop-release n (i + 1) t)
]

destroy_loop-in_use :
    (n i : ℕ) (t : HandleTable) (j : ℕ)
    → ((destroy_loop n i t).1.entries j).in_use
      ≡ (if leb i j && ltb j (i + n) then false else (t.entries j).in_use)
unfolding destroy_loop
destroy_loop-in_use zero i t j = ground arith
destroy_loop-in_use (suc n) i t j = elim (Bool-cases (t.entries i).in_use) [
  | inl e ↦ ground (
    arith,
    destroy_loop-in_use n (i + 1) (record t { entries = update t.entries i free_entry }) j,
  )
  | inr e ↦ ground (arith, destroy_loop-in_use n (i + 1) t j)
]

destroy_loop-owners :
    (n i : ℕ) (o : Object) (t : HandleTable)
    → t.release ≡ true
    → i + n ≤ handle_max
    → let (calls, t') = destroy_loop n i t in count o calls + owners o t' ≡ owners o t
unfolding destroy_loop owners
destroy_loop-owners zero i o t r h = omega arith
destroy_loop-owners (suc n) i o t r h = elim (Bool-cases (t.entries i).in_use) [
  | inl e ↦
      let t₁ = record t { entries = update t.entries i free_entry } in
      ground (
        arith,
        destroy_loop-owners n (i + 1) o t₁,
        count-append o (releases t (t.entries i)) (destroy_loop n (i + 1) t₁).0,
        total-update (owns o) handle_max t.entries i free_entry,
      )
  | inr e ↦ ground (arith, destroy_loop-owners n (i + 1) o t)
]

-- No handle is left open.
pub destroy-in_use :
    (t : HandleTable) (h : ℕ)
    → h < handle_max
    → ((handle_table_destroy t).1.entries h).in_use ≡ false
unfolding handle_table_destroy
destroy-in_use t h lt = ground (arith, destroy_loop-in_use handle_max 0 t h)

-- Each object is released once for each entry that owns it, and nothing owns it afterwards.
pub destroy-count :
    (o : Object) (t : HandleTable)
    → t.release ≡ true
    → (count o (handle_table_destroy t).0 ≡ owners o t) × (owners o (handle_table_destroy t).1 ≡ 0)
unfolding handle_table_destroy owners
destroy-count o t r =
    let none_left : total (owns o) handle_max (destroy_loop handle_max 0 t).1.entries ≡ 0 =
      total-zero (owns o) handle_max _
        (λ i lt. ground (arith, destroy_loop-in_use handle_max 0 t i)) in
    (ground (arith, destroy_loop-owners handle_max 0 o t), none_left)
