-- ===== src/Kernel/Sched/Turn.antt =====
-- Whose turn it is: what a yield, a block and an exit do to the rotation of the threads.
use exyde.Common.{
  append_assoc, ap, zero, suc, ℕ, length, ◌≡◌, ◌≢◌, refl, ◌∙◌, true, false, List, [], ◌∷◌, ◌++◌,
  arith, ◌==◌,
}
use exyde.Kernel.Chain.{Ptr, null, has}
use exyde.Kernel.Sched.{
  Outcome, stay, panic, ThreadState, ready, running, blocked, dead, Sched, ready_dequeue, set_state,
  is_running, switch, switch_to, sched_schedule, sched_yield, sched_block,
}
use exyde.Kernel.Sched.Ready.{
  Queues, IsScheduled, has_space, not_has, Dequeued, dequeue-Dequeued, Dequeued-Queues,
  set_state-Queues, set_state-SameThread,
}
use exyde.Kernel.Sched.Switch.{switch-running, switch-stopped, Switched, Resumed, Resumed-after}

module _ {s : Sched} (x : Ptr) (q : List Ptr) {zs : List Ptr} (i : Queues s (x ∷ q) zs) where
  full : s.ready_head ≢ null
  full z = i.ready_queue.chain.1 (ground (arith, i.ready_queue.chain))

  taken : Dequeued s (ready_dequeue s).0 (ready_dequeue s).1
  taken = dequeue-Dequeued s full

  picks : sched_schedule s ≡ switch (switch_to x (ready_dequeue s).1)
  unfolding sched_schedule
  picks =
      let e : (ready_dequeue s).0 ≡ x = taken.head_taken ∙ i.ready_queue.chain.0 in
      let ne : (x == null) ≡ false = ground (arith, i.ready_queue.chain) in rw (e, ne) refl

  x_ready : ((ready_dequeue s).1.threads x).state ≡ ready
  x_ready = taken.state x ∙ i.all_ready x (ground arith)

  space_kept : has_space (ready_dequeue s).1 ≡ has_space s
  space_kept = rw (taken.current, taken.loaded_space, (taken.same s.current).space) refl

  -- The current thread gave up the processor: the first ready thread resumes.
  pub schedule-stopped :
      (st : ThreadState)
      → (s.threads s.current).state ≡ st
      → is_running st ≡ false
      → has_space s ≡ true
      → Switched (Resumed s x st q zs) (sched_schedule s)
  schedule-stopped st at_st stopped l = rw picks (
      Resumed-after s (ready_dequeue s).1 (switch (switch_to x (ready_dequeue s).1)) x st _ _
        taken.current (λ p _. taken.state p) taken.same
        (switch-stopped (ready_dequeue s).1 x q zs st
          (rw taken.current (taken.state s.current ∙ at_st)) stopped (Dequeued-Queues x q i taken)
          i.ready_queue.chain.1 x_ready i.ready_queue.distinct.0 (space_kept ∙ l)))

-- Where the invariant holds with a thread ready, a yield rotates the threads: the first ready thread
-- resumes on its own stack with a new slice, the one that ran is queued last, no other thread's
-- state changes, and the invariant holds again.
pub yield-Resumed :
    {s : Sched} (x : Ptr) (q : List Ptr) {zs : List Ptr}
    → IsScheduled s (x ∷ q) zs
    → Switched (Resumed s x ready (q ++ (s.current ∷ [])) zs) (sched_yield s)
unfolding sched_yield
yield-Resumed {s} x q {zs} i =
    let j = i.queues in
    let t = taken x q j in
    let ne : (s.ready_head == null) ≡ false = ground (arith, full x q j) in
    let s₁ = (ready_dequeue s).1 in
    let at_c : (ready_dequeue s).1.current ≡ s.current = t.current in
    rw (ne, picks x q j)
      (Resumed-after s (ready_dequeue s).1 (switch (switch_to x (ready_dequeue s).1)) x ready _ _
        at_c (λ p _. t.state p) t.same
        (coe 0 1 (k. Resumed s₁ x ready (q ++ (at_c k ∷ [])) zs (switch_to x s₁)) (
          switch-running (ready_dequeue s).1 x q zs
            (record {
              queues = Dequeued-Queues x q j t;
              current_ne_null = rw at_c i.current_ne_null;
              current_running = rw at_c (t.state s.current ∙ i.current_running);
              space_loaded = space_kept x q j ∙ i.space_loaded;
            })
            j.ready_queue.chain.1 (x_ready x q j) j.ready_queue.distinct.0)))

-- The current thread is in neither queue.
module _ {s : Sched} {q zs : List Ptr} (i : IsScheduled s q zs) where
  pub current_not_ready : has s.current q ≡ false
  current_not_ready =
      not_has s ready running q s.current i.queues.all_ready i.current_running (λ z. cc)

  pub current_not_zombie : has s.current zs ≡ false
  current_not_zombie =
      not_has s dead running zs s.current i.queues.all_dead i.current_running (λ z. cc)

-- Where the invariant holds with a thread ready, a block of the current thread resumes the first
-- ready one, leaves the caller blocked and out of the queues, and keeps the invariant.
pub block-Resumed :
    {s : Sched} (x : Ptr) (q : List Ptr) {zs : List Ptr}
    → IsScheduled s (x ∷ q) zs
    → Switched (Resumed s x blocked q zs) (sched_block s)
unfolding sched_block
block-Resumed {s} x q {zs} i =
    let s₁ = set_state s s.current blocked in
    Resumed-after s s₁ (sched_schedule s₁) x blocked _ _ refl (λ p ne. ground arith)
      (set_state-SameThread s s.current blocked)
      (schedule-stopped x q
        (set_state-Queues s.current blocked i.queues (current_not_ready i) (current_not_zombie i))
        blocked (ground arith) refl (ground (arith, i.space_loaded)))

-- The state in which the next thread goes on, and the one after `n` yields in a row.
abbrev pub resumed : Sched → Outcome → Sched
resumed s (stay s') = s'
resumed s (switch s') = s'
resumed s panic = s

unfoldable pub yields : ℕ → Sched → Sched
yields zero s = s
yields (suc n) s = yields n (resumed s (sched_yield s))

resumed-Switched : (P : Sched → Type 0) (s : Sched) (o : Outcome) → Switched P o → P (resumed s o)
resumed-Switched P s (stay s') p = absurd p
resumed-Switched P s (switch s') p = p
resumed-Switched P s panic p = absurd p

-- Where the invariant holds with the threads `xs` and then `x` queued, `x` runs after one yield more than there are in `xs`,
-- and the queue has rotated: those behind `x` come first, then the thread that ran, then `xs`.
-- The invariant holds again.
pub yields-rotate :
    (s : Sched) (xs : List Ptr) (x : Ptr) (ys zs : List Ptr)
    → IsScheduled s (xs ++ (x ∷ ys)) zs
    → let s' = yields (suc (length xs)) s in
      (s'.current ≡ x) × IsScheduled s' (ys ++ (s.current ∷ xs)) zs
unfolding yields
yields-rotate s [] x ys zs i =
    let f =
      resumed-Switched (Resumed s x ready (ys ++ (s.current ∷ [])) zs) s (sched_yield s)
        (yield-Resumed x ys i) in
    (f.current, f.scheduled)
yields-rotate s (z ∷ xs) x ys zs i =
    let c = s.current in
    let s' = resumed s (sched_yield s) in
    let f =
      resumed-Switched (Resumed s z ready ((xs ++ (x ∷ ys)) ++ (c ∷ [])) zs) s (sched_yield s)
        (yield-Resumed z (xs ++ (x ∷ ys)) i) in
    let at = append_assoc ys (c ∷ []) (s'.current ∷ xs) ∙ ap (λ u. ys ++ (c ∷ u ∷ xs)) f.current in
    let (e, j) =
      yields-rotate s' xs x (ys ++ (c ∷ [])) zs
        (coe 0 1 (k. IsScheduled s' (append_assoc xs (x ∷ ys) (c ∷ []) k) zs) f.scheduled) in
    (e, coe 0 1 (k. IsScheduled (yields (suc (length xs)) s') (at k) zs) j)
