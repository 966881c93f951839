-- ===== src/Kernel/Sched/Frame.antt =====
-- Steps that change neither the queues of the scheduler nor the state of a thread.
use exyde.Common.{◌≡◌, ◌∙◌, List}
use exyde.Kernel.Chain.{Ptr, IsQueue-frame}
use exyde.Kernel.Sched.{Sched}
use exyde.Kernel.Sched.Ready.{next_of, IsScheduled}

pub record SameQueues (s s' : Sched) : Type 0 where
  pub state : (p : Ptr) → (s'.threads p).state ≡ (s.threads p).state
  pub next : (p : Ptr) → next_of s' p ≡ next_of s p
  pub space : (p : Ptr) → (s'.threads p).space ≡ (s.threads p).space
  pub current : s'.current ≡ s.current
  pub ready_head : s'.ready_head ≡ s.ready_head
  pub ready_tail : s'.ready_tail ≡ s.ready_tail
  pub zombie_head : s'.zombie_head ≡ s.zombie_head
  pub zombie_tail : s'.zombie_tail ≡ s.zombie_tail
  pub ready_count : s'.ready_count ≡ s.ready_count
  pub loaded_space : s'.loaded_space ≡ s.loaded_space

pub SameQueues-IsScheduled :
    {s s' : Sched} {q zs : List Ptr} → IsScheduled s q zs → SameQueues s s' → IsScheduled s' q zs
SameQueues-IsScheduled {s} i f =
    let j = i.queues in
    record {
      queues = record {
        ready_queue = rw (f.ready_head, f.ready_tail) (IsQueue-frame j.ready_queue λ p h. f.next p);
        zombies = rw (f.zombie_head, f.zombie_tail) (IsQueue-frame j.zombies λ p h. f.next p);
        all_ready = λ p h. f.state p ∙ j.all_ready p h;
        all_dead = λ p h. f.state p ∙ j.all_dead p h;
        count = f.ready_count ∙ j.count;
      };
      current_ne_null = rw f.current i.current_ne_null;
      current_running = rw f.current (f.state s.current ∙ i.current_running);
      space_loaded = rw (f.current, f.loaded_space, f.space s.current) i.space_loaded;
    }
