-- ===== src/Kernel/Handle/Run.antt =====
-- Any sequence of operations on one table: the books of each object balance.
use exyde.Common.{
  ℕ, ◌+◌, ◌≡◌, refl, Bool, true, List, [], ◌∷◌, ◌++◌, ◌∙◌, arith, fill_lem, total-zero, Bool-cases,
  inl, inr,
}
use exyde.Kernel.Handle.{
  Object, Release, HandleTable, handle_max, free_entry, handle_table_init, handle_close,
  handle_disown, handle_table_destroy, handle_table_has_free_slot,
}
use exyde.Kernel.Handle.Create.{create-Stored, create-full}
use exyde.Kernel.Handle.Owners.{
  Op, create, close, disown, step, taken, waived, owns, owners, count, count-append, create-owners,
  close-owners, disown-owners,
}
use exyde.Kernel.Handle.Destroy.{destroy-count}

-- The calls that a sequence of operations makes, in order, and the table that it leaves.
unfoldable pub run : List Op → HandleTable → List Release × HandleTable
run [] t = ([], t)
run (op ∷ ops) t =
    let (calls, t') = step op t in let (rest, t'') = run ops t' in (calls ++ rest, t'')

-- The sums over the sequence of what `taken` and `waived` say of each operation.
unfoldable pub all_taken : Object → List Op → HandleTable → ℕ
all_taken o [] t = 0
all_taken o (op ∷ ops) t = taken o op t + all_taken o ops (step op t).1

unfoldable pub all_waived : Object → List Op → HandleTable → ℕ
all_waived o [] t = 0
all_waived o (op ∷ ops) t = waived o op t + all_waived o ops (step op t).1

step-release : (op : Op) (t : HandleTable) → (step op t).1.release ≡ t.release
unfolding handle_close handle_disown
step-release (create kind rights object own) t = elim (Bool-cases (handle_table_has_free_slot t)) [
  | inl free ↦ (create-Stored t kind rights object own free).release
  | inr full ↦ ground (arith, create-full t kind rights object own full)
]
step-release (close h) t = ground arith
step-release (disown h) t = ground arith

step-balance :
    (o : Object) (op : Op) (t : HandleTable)
    → t.release ≡ true
    → count o (step op t).0 + waived o op t + owners o (step op t).1 ≡ owners o t + taken o op t
step-balance o (create kind rights object own) t r =
    omega (arith, create-owners o t kind rights object own)
step-balance o (close h) t r = omega (arith, close-owners o t h r)
step-balance o (disown h) t r = omega (arith, disown-owners o t h)

run-balance :
    (o : Object) (ops : List Op) (t : HandleTable)
    → t.release ≡ true
    → let (calls, t') = run ops t in
      (t'.release ≡ true)
      × (count o calls + all_waived o ops t + owners o t' ≡ owners o t + all_taken o ops t)
unfolding run all_taken all_waived
run-balance o [] t r = (r, omega arith)
run-balance o (op ∷ ops) t r =
    let (r', ih) = run-balance o ops (step op t).1 (step-release op t ∙ r) in
    (
      r',
      omega (
        arith,
        ih,
        step-balance o op t r,
        count-append o (step op t).0 (run ops (step op t).1).0,
      ),
    )

owners-init :
    (o : Object) (release : Bool) (t : HandleTable) → owners o (handle_table_init release t) ≡ 0
unfolding owners handle_table_init
owners-init o release t =
    total-zero (owns o) handle_max _
      (λ i lt. ground (arith, fill_lem handle_max 0 free_entry t.entries i))

init-release : (m : HandleTable) → (handle_table_init true m).release ≡ true
unfolding handle_table_init
init-release m = refl

-- From `handle_table_init` with a callback, through any operations, to `handle_table_destroy`: the
-- release calls for an object and the owning entries of it that were disowned are together as
-- many as the owning entries that were created for it.
pub run-released_once :
    (o : Object) (ops : List Op) (memory : HandleTable)
    → let t = handle_table_init true memory in
      let (calls, t') = run ops t in
      let (last, t'') = handle_table_destroy t' in
      (count o (calls ++ last) + all_waived o ops t ≡ all_taken o ops t) × (owners o t'' ≡ 0)
run-released_once o ops memory =
    let t = handle_table_init true memory in
    let (r, balance) = run-balance o ops t (init-release memory) in
    let (all, left) = destroy-count o (run ops t).1 r in
    (
      omega (
        arith,
        balance,
        all,
        owners-init o true memory,
        count-append o (run ops t).0 (handle_table_destroy (run ops t).1).0,
      ),
      left,
    )
