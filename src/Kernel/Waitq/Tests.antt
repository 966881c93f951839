-- ===== src/Kernel/Waitq/Tests.antt =====
-- A wait queue with one thread in it, beside the ready queue of the scheduler's tests.
use exyde.Common.{◌≡◌, refl, ap, ◌∙◌, [], ◌∷◌, arith}
use exyde.Kernel.Sched.{sched_init, sched_enqueue, sched_unblock}
use exyde.Kernel.Sched.Ready.{IsScheduled}
use exyde.Kernel.Sched.Tests.{pair, pair-IsScheduled}
use exyde.Kernel.Waitq.{Waitq, wake_one}
use exyde.Kernel.Waitq.Fifo.{Waits, wake_one-Waits}

abbrev pub one_waiting : Waitq
one_waiting = record { head = 4; tail = 4 }

pub one_waiting-Waits : Waits one_waiting pair (4 ∷ [])
unfolding sched_init sched_unblock sched_enqueue
one_waiting-Waits = record {
  queue = record { chain = (refl, (λ e. omega arith), refl); at_end = refl; distinct = (refl, tt) };
  all_blocked = λ p h. let e : p ≡ 4 = ground arith in ap (λ u. (pair.threads u).state) e ∙ refl;
}

wake_one-Waits_example :
    let (q', s') = wake_one one_waiting pair in Waits q' s' [] × IsScheduled s' (2 ∷ 3 ∷ 4 ∷ []) []
wake_one-Waits_example =
    wake_one-Waits one_waiting pair (4 ∷ []) (2 ∷ 3 ∷ []) [] one_waiting-Waits pair-IsScheduled
