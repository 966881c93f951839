-- ===== src/Kernel/Sched/Tests.antt =====
-- Runs of the scheduler on three threads: the boot thread 1, and 2 and 3, which were blocked.
use exyde.Common.{◌≡◌, refl, false, not, [], ◌∷◌, ◌==◌, arith}
use exyde.Kernel.Chain.{null}
use exyde.Kernel.Sched.{
  Thread, blocked, ready, dead, Sched, sched_init, sched_enqueue, sched_unblock, sched_yield,
  thread_exit, zombie_push, ready_dequeue, switch_to, sched_schedule, reap_zombies, reap_loop,
  thread_effects, process_unref, vmm_space_unref, free_stack, free_thread,
}
use exyde.Kernel.Sched.Ready.{IsScheduled}
use exyde.Kernel.Sched.Switch.{Switched, Resumed}
use exyde.Kernel.Sched.Turn.{yields, resumed, yield-Resumed, yields-rotate}
use exyde.Kernel.Sched.Exit.{exit-Resumed}
use exyde.Kernel.Sched.Events.{init-IsScheduled, unblock-IsScheduled, ticks, ticks-quantum}
use exyde.Kernel.Sched.Reap.{Reaped, reap-IsScheduled}

abbrev sleeper : Thread
sleeper = record {
  state = blocked;
  id = 5;
  ticks_used = 3;
  stack_base = 4096;
  stack_size = 8192;
  kernel_stack_top = 12288;
  space = 9;
  process = null;
  next = null;
  wait_next = null;
}

abbrev before : Sched
before = record {
  threads = λ p. sleeper;
  ready_head = null;
  ready_tail = null;
  current = null;
  ready_count = 0;
  need_resched = false;
  zombie_head = null;
  zombie_tail = null;
  kernel_stack = 0;
  loaded_space = 7;
}

abbrev pub booted : Sched
booted = sched_init 1 65536 7 before

abbrev pub pair : Sched
pair = sched_unblock 3 (sched_unblock 2 booted)

pub booted-IsScheduled : IsScheduled booted [] []
booted-IsScheduled = init-IsScheduled 1 65536 7 before (λ e. omega arith) refl

two-IsScheduled : IsScheduled (sched_unblock 2 booted) (2 ∷ []) []
unfolding sched_init
two-IsScheduled = unblock-IsScheduled 2 booted-IsScheduled (λ e. omega arith) refl

pub pair-IsScheduled : IsScheduled pair (2 ∷ 3 ∷ []) []
unfolding sched_init sched_unblock sched_enqueue
pair-IsScheduled = unblock-IsScheduled 3 two-IsScheduled (λ e. omega arith) refl

yield-Resumed_example :
    Switched (Resumed pair 2 ready (3 ∷ pair.current ∷ []) []) (sched_yield pair)
yield-Resumed_example = yield-Resumed 2 (3 ∷ []) pair-IsScheduled

yields-rotate_example :
    ((yields 2 pair).current ≡ 3) × IsScheduled (yields 2 pair) (pair.current ∷ 2 ∷ []) []
yields-rotate_example = yields-rotate pair (2 ∷ []) 3 [] [] pair-IsScheduled

exit-Resumed_example :
    Switched (Resumed pair 2 dead (3 ∷ []) (pair.current ∷ [])) (thread_exit pair)
exit-Resumed_example = exit-Resumed 2 (3 ∷ []) pair-IsScheduled

ticks-quantum_example :
    ((ticks 4 pair).need_resched ≡ false)
    × ((ticks 5 pair).need_resched ≡ not (pair.ready_head == null))
unfolding sched_init sched_unblock sched_enqueue
ticks-quantum_example = ticks-quantum pair (λ e. omega arith) 4 (omega arith) refl refl

-- The state after the boot thread has exited: thread 2 runs and 1 is a zombie.
abbrev exited : Sched
exited = resumed pair (thread_exit pair)

exited-IsScheduled : IsScheduled exited (3 ∷ []) (1 ∷ [])
unfolding sched_init sched_unblock sched_enqueue thread_exit zombie_push sched_schedule
    ready_dequeue switch_to
exited-IsScheduled = (exit-Resumed 2 (3 ∷ []) pair-IsScheduled).scheduled

reap-IsScheduled_example :
    let (effects, s') = reap_zombies (λ p. null) 4 exited in
    Reaped (λ p. null) exited.threads (1 ∷ []) effects × IsScheduled s' (3 ∷ []) []
reap-IsScheduled_example = reap-IsScheduled (λ p. null) 4 exited-IsScheduled (omega arith)

-- After the exit the reaper drops the boot thread's space and frees the thread, which has no stack
-- of its own.
reap_boot : (reap_zombies (λ p. null) 4 exited).0 ≡ (vmm_space_unref 7 ∷ free_thread 1 ∷ [])
unfolding sched_init sched_unblock sched_enqueue thread_exit zombie_push sched_schedule
    ready_dequeue switch_to reap_zombies reap_loop thread_effects
reap_boot = refl

-- The main thread of process 40, with its stack, and another thread of that process.
main_effects :
    thread_effects (λ p. 1) 1 (record (exited.threads 1) { process = 40; stack_base = 9000 })
    ≡ (process_unref 40 ∷ vmm_space_unref 7 ∷ free_stack 9000 ∷ free_thread 1 ∷ [])
unfolding sched_init sched_unblock sched_enqueue thread_exit zombie_push sched_schedule
    ready_dequeue switch_to thread_effects
main_effects = refl

other_effects :
    thread_effects
      (λ p. 1)
      2
      (record (exited.threads 1) { process = 40; space = null; stack_base = 9000 })
    ≡ (free_stack 9000 ∷ free_thread 2 ∷ [])
unfolding thread_effects
other_effects = refl
