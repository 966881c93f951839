-- ===== src/Kernel/Semaphore/Tests.antt =====
-- A semaphore with two units, and one with none on which a thread waits.
use exyde.Common.{◌+◌, ◌≡◌, List, [], ◌∷◌, arith}
use exyde.Kernel.Sched.Tests.{pair}
use exyde.Kernel.Waitq.Tests.{one_waiting}
use exyde.Kernel.Semaphore.{Semaphore, sem_init}
use exyde.Kernel.Semaphore.Count.{SemOp, wait, try_wait, post, run, taken, run-count}

abbrev ops : List SemOp
ops = wait pair ∷ try_wait pair ∷ post pair ∷ try_wait pair ∷ []

run-count_example : (run ops (sem_init 2)).count + taken ops (sem_init 2) ≡ (sem_init 2).count + 1
unfolding sem_init
run-count_example = run-count ops (sem_init 2) (omega arith)

abbrev empty : Semaphore
empty = record { count = 0; waiters = one_waiting }
