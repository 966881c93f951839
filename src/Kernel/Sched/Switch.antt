-- ===== src/Kernel/Sched/Switch.antt =====
-- A switch of threads: `sched_schedule` and what it does to the queues and to the processor.
use exyde.Common.{
  ◌≡◌, ◌≢◌, refl, ap, ◌∙◌, true, false, not, ◌||◌, ◌&&◌, List, [], ◌∷◌, ◌++◌, arith, ◌==◌,
  if◌then◌else◌,
}
use exyde.Kernel.Chain.{Ptr, null, has, IsQueue-frame, has-append}
use exyde.Kernel.Sched.{
  ThreadState, ready, running, dead, Sched, sched_enqueue, set_state, is_running, Outcome, stay,
  switch, panic, switch_to,
}
use exyde.Kernel.Sched.Ready.{
  next_of, Queues, IsScheduled, has_space, not_has, SameThread, enqueue-Enqueued, Enqueued-Queues,
  set_state-Queues, SameThread-trans, set_state-SameThread,
}

-- The processor goes from the thread `c` of the state `s` to `x`, whose slice begins.
pub record Ran (c x : Ptr) (s s' : Sched) : Type 0 where
  pub next : (p : Ptr) → next_of s' p ≡ next_of s p
  pub state : (p : Ptr) → (s'.threads p).state ≡ (if x == p then running else (s.threads p).state)
  pub same : (p : Ptr) → SameThread (s.threads p) (s'.threads p)
  pub ticks : (s'.threads x).ticks_used ≡ 0
  pub current : s'.current ≡ x
  pub ready_head : s'.ready_head ≡ s.ready_head
  pub ready_tail : s'.ready_tail ≡ s.ready_tail
  pub zombie_head : s'.zombie_head ≡ s.zombie_head
  pub zombie_tail : s'.zombie_tail ≡ s.zombie_tail
  pub ready_count : s'.ready_count ≡ s.ready_count
  pub kernel_stack : s'.kernel_stack ≡ (s.threads x).kernel_stack_top
  pub loaded_space : s'.loaded_space ≡ (
      if not ((s.threads x).space == (s.threads c).space) && not ((s.threads x).space == null)
      then (s.threads x).space
      else s.loaded_space)

-- What `switch_to` starts from: a thread that still runs is queued first.
abbrev pub put_back : Sched → Sched
put_back s =
    if is_running (s.threads s.current).state
    then sched_enqueue s.current (set_state s s.current ready)
    else s

pub switch-Ran : (x : Ptr) (s : Sched) → Ran s.current x (put_back s) (switch_to x s)
unfolding switch_to
switch-Ran x s = record {
  next = λ p. ground arith;
  state = λ p. ground arith;
  same = λ p. ground arith;
  ticks = ground arith;
  current = refl;
  ready_head = refl;
  ready_tail = refl;
  zombie_head = refl;
  zombie_tail = refl;
  ready_count = refl;
  kernel_stack = refl;
  loaded_space = refl;
}

-- The chosen thread stands in neither queue.
pub Ran-Queues :
    {s s' : Sched} {q zs : List Ptr} (c x : Ptr)
    → Queues s q zs
    → Ran c x s s'
    → has x q ≡ false
    → has x zs ≡ false
    → Queues s' q zs
Ran-Queues c x i f out out_zs = record {
  ready_queue = rw (f.ready_head, f.ready_tail) (IsQueue-frame i.ready_queue λ p h. f.next p);
  zombies = rw (f.zombie_head, f.zombie_tail) (IsQueue-frame i.zombies λ p h. f.next p);
  all_ready = λ p h. f.state p ∙ ground (arith, i.all_ready p);
  all_dead = λ p h. f.state p ∙ ground (arith, i.all_dead p);
  count = f.ready_count ∙ i.count;
}

-- After a switch to `x` the invariant holds again.
pub Ran-IsScheduled :
    {s s' : Sched} {q zs : List Ptr} (c x : Ptr)
    → Queues s q zs
    → Ran c x s s'
    → x ≢ null
    → has x q ≡ false
    → has x zs ≡ false
    → (((s.threads c).space == null) || (s.loaded_space == (s.threads c).space)) ≡ true
    → IsScheduled s' q zs
Ran-IsScheduled {s} {s'} c x i f ne out out_zs l = record {
  queues = Ran-Queues c x i f out out_zs;
  current_ne_null = rw f.current ne;
  current_running = rw f.current (ground (arith, f.state x));
  space_loaded = rw (f.current, (f.same x).space, f.loaded_space) (ground arith);
}

-- The outcome is a switch into a state with this property.
abbrev pub Switched : (Sched → Type 0) → Outcome → Type 0
Switched P (stay s) = ⊥
Switched P (switch s) = P s
Switched P panic = ⊥

pub Switched-map :
    (P Q : Sched → Type 0) (o : Outcome) → ((s : Sched) → P s → Q s) → Switched P o → Switched Q o
Switched-map P Q (stay s) f p = p
Switched-map P Q (switch s) f p = f s p
Switched-map P Q panic f p = p

-- The thread `x` runs now, on its own kernel stack and with a new slice; the queues hold `q` and
-- `zs`, and the thread that left the processor has the state `st`.
pub record Resumed (s : Sched) (x : Ptr) (st : ThreadState) (q zs : List Ptr) (s' : Sched)
    : Type 0 where
  pub scheduled : IsScheduled s' q zs
  pub current : s'.current ≡ x
  pub kernel_stack : s'.kernel_stack ≡ (s.threads x).kernel_stack_top
  pub slice : (s'.threads x).ticks_used ≡ 0
  pub states :
      (p : Ptr)
      → (s'.threads p).state
        ≡ (if x == p then running else if s.current == p then st else (s.threads p).state)
  pub same : (p : Ptr) → SameThread (s.threads p) (s'.threads p)

module _ (s : Sched) (x : Ptr) (q zs : List Ptr) where
  -- The current thread runs: it is queued behind the others.
  pub switch-running :
      IsScheduled s q zs
      → x ≢ null
      → (s.threads x).state ≡ ready
      → has x q ≡ false
      → Resumed s x ready (q ++ (s.current ∷ [])) zs (switch_to x s)
  switch-running i ne st out =
      let c = s.current in
      let s₁ = set_state s c ready in
      let run : is_running (s.threads c).state ≡ true = ap is_running i.current_running in
      let back : put_back s ≡ sched_enqueue c s₁ = ground arith in
      let e = enqueue-Enqueued c s₁ in
      let f : Ran c x (sched_enqueue c s₁) (switch_to x s) = rw (← back) (switch-Ran x s) in
      let out_c : has c q ≡ false =
        not_has s ready running q c i.queues.all_ready i.current_running (λ z. cc) in
      let out_zc : has c zs ≡ false =
        not_has s dead running zs c i.queues.all_dead i.current_running (λ z. cc) in
      let out_z : has x zs ≡ false = not_has s dead ready zs x i.queues.all_dead st (λ z. cc) in
      let queued : Queues (sched_enqueue c s₁) (q ++ (c ∷ [])) zs =
        Enqueued-Queues (set_state-Queues c ready i.queues out_c out_zc) c e i.current_ne_null
          (ground arith) out_c in
      record {
        scheduled =
            Ran-IsScheduled c x queued f ne
              (ground (arith, has-append x q (c ∷ []), i.current_running)) out_z
              (ground (arith, (e.same c).space, e.loaded_space, i.space_loaded));
        current = f.current;
        kernel_stack = f.kernel_stack ∙ ((e.same x).kernel_stack_top ∙ ground arith);
        slice = f.ticks;
        states = λ p. f.state p ∙ ground (arith, e.state p);
        same = λ p.
            SameThread-trans (set_state-SameThread s c ready p)
              (SameThread-trans (e.same p) (f.same p));
      }

  -- The current thread has stopped: it stands in no queue, or in the zombie list.
  pub switch-stopped :
      (st : ThreadState)
      → (s.threads s.current).state ≡ st
      → is_running st ≡ false
      → Queues s q zs
      → x ≢ null
      → (s.threads x).state ≡ ready
      → has x q ≡ false
      → has_space s ≡ true
      → Resumed s x st q zs (switch_to x s)
  switch-stopped st at_st stopped i ne r out l =
      let c = s.current in
      let run : is_running (s.threads c).state ≡ false = ap is_running at_st ∙ stopped in
      let back : put_back s ≡ s = ground arith in
      let f : Ran c x s (switch_to x s) =
        coe 0 1 (j. Ran c x (back j) (switch_to x s)) (switch-Ran x s) in
      let out_z : has x zs ≡ false = not_has s dead ready zs x i.all_dead r (λ z. cc) in
      record {
        scheduled = Ran-IsScheduled c x i f ne out out_z l;
        current = f.current;
        kernel_stack = f.kernel_stack;
        slice = f.ticks;
        states = λ p. f.state p ∙ ground arith;
        same = f.same;
      }

-- What was done before the switch may have changed the links and the current thread's state.
pub Resumed-after :
    (s s₁ : Sched) (o : Outcome) (x : Ptr) (st : ThreadState) (q zs : List Ptr)
    → s₁.current ≡ s.current
    → ((p : Ptr) → p ≢ s.current → (s₁.threads p).state ≡ (s.threads p).state)
    → ((p : Ptr) → SameThread (s.threads p) (s₁.threads p))
    → Switched (Resumed s₁ x st q zs) o
    → Switched (Resumed s x st q zs) o
Resumed-after s s₁ (stay _) x st q zs e kept same f = absurd f
Resumed-after s s₁ panic x st q zs e kept same f = absurd f
Resumed-after s s₁ (switch s') x st q zs e kept same f = record {
  scheduled = f.scheduled;
  current = f.current;
  kernel_stack = f.kernel_stack ∙ (same x).kernel_stack_top;
  slice = f.slice;
  states = λ p. f.states p ∙ ground (arith, kept p);
  same = λ p. SameThread-trans (same p) (f.same p);
}
