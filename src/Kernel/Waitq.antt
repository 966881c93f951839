-- ===== src/Kernel/Waitq.antt =====
-- The wait queues of src/kernel/include/exyde/waitq.h, over the store of threads, and the two
-- patterns in which every blocking primitive of the kernel uses them.
pub mod Fifo
pub mod Tests
use exyde.Common.{Bool, ◌==◌, if◌then◌else◌, update}
use exyde.Kernel.Chain.{Ptr, null}
use exyde.Kernel.Sched.{Thread, Sched, Outcome, sched_block, sched_unblock}

-- `p->wait_next = v`.
abbrev pub set_wait_next : Sched → Ptr → Ptr → Sched
set_wait_next s p v = record s {
  threads = update s.threads p (record (s.threads p) { wait_next = v });
}

-- `waitq_t`: threads linked by `wait_next`.
pub record Waitq : Type 0 where
  pub head : Ptr
  pub tail : Ptr

abbrev pub waitq_init : Waitq
waitq_init = record { head = null; tail = null }

abbrev pub waitq_empty : Waitq → Bool
waitq_empty q = q.head == null

unfoldable pub waitq_push : Waitq → Ptr → Sched → Waitq × Sched
waitq_push q t s =
    let s₁ = set_wait_next s t null in
    if q.tail == null
    then (record { head = t; tail = t }, s₁)
    else (record q { tail = t }, set_wait_next s₁ q.tail t)

unfoldable pub waitq_pop : Waitq → Sched → Ptr × Waitq × Sched
waitq_pop q s =
    let t = q.head in
    let head = (s.threads t).wait_next in
    if t == null then (null, q, s) else (
      t,
      record { head = head; tail = if head == null then null else q.tail },
      set_wait_next s t null,
    )

-- `thread_t *w = waitq_pop(q); if (w) sched_unblock(w);`
unfoldable pub wake_one : Waitq → Sched → Waitq × Sched
wake_one q s = let (w, q', s') = waitq_pop q s in (q', if w == null then s' else sched_unblock w s')

-- `waitq_push(q, thread_current()); sched_block();`
unfoldable pub wait_on : Waitq → Sched → Waitq × Outcome
wait_on q s = let (q', s') = waitq_push q s.current s in (q', sched_block s')

-- How an attempt at a blocking operation on an object ends: with a result, or asleep with what the
-- scheduler does. A thread that sleeps makes a new attempt when it resumes.
pub data Attempt (O A : Type 0) : Type 0 where
  done : A → O → Sched → Attempt O A
  asleep : O → Outcome → Attempt O A

-- The attempt ended, with this property of its result.
abbrev pub Done : {O A : Type 0} → (A → O → Sched → Type 0) → Attempt O A → Type 0
Done P (done a c s) = P a c s
Done P (asleep c o) = ⊥

-- The thread sleeps, with this property of the object and the switch.
abbrev pub Asleep : {O A : Type 0} → (O → Outcome → Type 0) → Attempt O A → Type 0
Asleep P (done a c s) = ⊥
Asleep P (asleep c o) = P c o
