-- ===== src/Kernel/Mutex/Tests.antt =====
-- A mutex used by the current thread, and a condition variable on which a thread waits.
use exyde.Common.{◌≡◌, List, [], ◌∷◌, some, arith}
use exyde.Kernel.Sched.Ready.{IsScheduled}
use exyde.Kernel.Sched.Tests.{pair, pair-IsScheduled}
use exyde.Kernel.Waitq.Fifo.{Waits}
use exyde.Kernel.Waitq.Tests.{one_waiting, one_waiting-Waits}
use exyde.Kernel.Mutex.{mutex_init, cond_broadcast}
use exyde.Kernel.Mutex.Exclusion.{MutexOp, lock, try_lock, unlock, run, replay, holder, run-replay}
use exyde.Kernel.Mutex.Condition.{broadcast-Waits}

abbrev ops : List MutexOp
ops = lock pair ∷ try_lock pair ∷ unlock pair ∷ lock pair ∷ []

run-replay_example :
    let (log, m') = run ops mutex_init in replay (holder mutex_init) log ≡ some (holder m')
run-replay_example = run-replay ops mutex_init

broadcast-Waits_example :
    let (c', s') = cond_broadcast 1 one_waiting pair in
    Waits c' s' [] × IsScheduled s' (2 ∷ 3 ∷ 4 ∷ []) []
broadcast-Waits_example =
    broadcast-Waits 1 one_waiting pair (4 ∷ []) (2 ∷ 3 ∷ []) [] (omega arith) one_waiting-Waits
      pair-IsScheduled
