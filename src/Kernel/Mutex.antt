-- ===== src/Kernel/Mutex.antt =====
-- The mutexes of src/kernel/core/mutex.c and the condition variables of src/kernel/core/condvar.c.
pub mod Exclusion
pub mod Condition
mod Tests
use exyde.Common.{ℕ, zero, suc, Bool, true, false, not, Option, some, none, ◌==◌, if◌then◌else◌}
use exyde.Kernel.Chain.{Ptr, null}
use exyde.Kernel.Sched.{Sched, Outcome, sched_block, sched_unblock}
use exyde.Kernel.Waitq.{
  Waitq, waitq_init, waitq_push, waitq_pop, wake_one, wait_on, Attempt, done, asleep,
}

-- `mutex_t`.
pub record Mutex : Type 0 where
  pub locked : Bool
  pub owner : Ptr
  pub waiters : Waitq

abbrev pub mutex_init : Mutex
mutex_init = record { locked = false; owner = null; waiters = waitq_init }

-- One attempt of `mutex_lock`.
unfoldable pub mutex_lock : Mutex → Sched → Attempt Mutex Bool
mutex_lock m s =
    let (q, o) = wait_on m.waiters s in
    if m.locked
    then asleep (record m { waiters = q }) o
    else done true (record m { locked = true; owner = s.current }) s

unfoldable pub mutex_trylock : Mutex → Sched → Bool × Mutex
mutex_trylock m s =
    if m.locked then (false, m) else (true, record m { locked = true; owner = s.current })

-- None is a panic.
unfoldable pub mutex_unlock : Mutex → Sched → Option (Mutex × Sched)
mutex_unlock m s =
    let (q, s') = wake_one m.waiters s in
    if not m.locked
    then none
    else if not (m.owner == s.current)
    then none
    else some (record { locked = false; owner = null; waiters = q }, s')

-- `cond_wait` up to the block; when the thread resumes it locks the mutex again.
unfoldable pub cond_wait : Waitq → Mutex → Sched → Option (Waitq × Mutex × Outcome)
cond_wait c m s =
    let (c', s₁) = waitq_push c s.current s in
    elim (mutex_unlock m s₁) [ none ↦ none | some (m', s₂) ↦ some (c', m', sched_block s₂) ]

unfoldable pub cond_signal : Waitq → Sched → Waitq × Sched
cond_signal c s = wake_one c s

-- The loop of `cond_broadcast`; its fuel bounds the number of waiting threads.
unfoldable pub cond_broadcast : ℕ → Waitq → Sched → Waitq × Sched
cond_broadcast zero c s = (c, s)
cond_broadcast (suc n) c s =
    let (w, c', s') = waitq_pop c s in
    let rest = cond_broadcast n c' (sched_unblock w s') in if w == null then (c', s') else rest
