-- ===== src/Kernel/Semaphore.antt =====
-- The semaphores of src/kernel/core/semaphore.c. The `int` count is its 32-bit word.
pub mod Count
mod Tests
use exyde.Common.{ℕ, ◌+◌, ◌-◌, ◌%◌, ◌^◌, Bool, true, false, not, ◌&&◌, ◌==◌, ltb, if◌then◌else◌}
use exyde.Kernel.Sched.{Sched}
use exyde.Kernel.Waitq.{Waitq, waitq_init, wake_one, wait_on, Attempt, done, asleep}

-- `semaphore_t`.
pub record Semaphore : Type 0 where
  pub count : ℕ
  pub waiters : Waitq

-- `count > 0`, for the word of a signed count.
abbrev pub is_positive : ℕ → Bool
is_positive w = not (w == 0) && ltb w (2 ^ 31)

unfoldable pub sem_init : ℕ → Semaphore
sem_init initial = record { count = initial; waiters = waitq_init }

-- One attempt: the loop of the source is repeated by the thread when it resumes.
unfoldable pub sem_wait : Semaphore → Sched → Attempt Semaphore Bool
sem_wait m s =
    let (q, o) = wait_on m.waiters s in
    if is_positive m.count
    then done true (record m { count = m.count - 1 }) s
    else asleep (record m { waiters = q }) o

unfoldable pub sem_post : Semaphore → Sched → Semaphore × Sched
sem_post m s =
    let (q, s') = wake_one m.waiters s in
    (record { count = (m.count + 1) % 2 ^ 32; waiters = q }, s')

unfoldable pub sem_trywait : Semaphore → Bool × Semaphore
sem_trywait m = if is_positive m.count then (true, record m { count = m.count - 1 }) else (false, m)
