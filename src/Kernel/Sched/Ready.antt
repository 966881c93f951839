-- ===== src/Kernel/Sched/Ready.antt =====
-- The ready queue and the zombie list as FIFO queues of threads, and the scheduler's invariant.
use exyde.Common.{
  ◌+◌, ◌-◌, ◌≡◌, ◌≢◌, refl, ap, ◌∙◌, sym, true, false, not, ◌&&◌, ◌||◌, Bool, List, [], ◌∷◌, ◌++◌,
  arith, ◌==◌, if◌then◌else◌, Bool-cases, inl, inr, length, length-append,
}
use exyde.Kernel.Chain.{
  Ptr, null, has, IsQueue, push-IsQueue, pop-IsQueue, IsQueue-frame, has-append, has-last, last,
}
use exyde.Kernel.Sched.{
  ThreadState, ready, running, dead, Thread, Sched, sched_enqueue, ready_dequeue, set_state,
}

-- The links of the ready queue and of the zombie list.
abbrev pub next_of : Sched → Ptr → Ptr
next_of s p = (s.threads p).next

-- Every thread of the list has this state.
abbrev pub AllIn : Sched → ThreadState → List Ptr → Type 0
AllIn s st xs = (p : Ptr) → has p xs ≡ true → (s.threads p).state ≡ st

-- The ready queue holds `q` and the zombie list `zs`: ready threads and dead ones.
pub record Queues (s : Sched) (q zs : List Ptr) : Type 0 where
  pub ready_queue : IsQueue (next_of s) s.ready_head s.ready_tail q
  pub zombies : IsQueue (next_of s) s.zombie_head s.zombie_tail zs
  pub all_ready : AllIn s ready q
  pub all_dead : AllIn s dead zs
  pub count : s.ready_count ≡ length q

-- The current thread's address space is loaded, where it has one.
abbrev pub has_space : Sched → Bool
has_space s =
    let space = (s.threads s.current).space in (space == null) || (s.loaded_space == space)

-- The invariant between steps: besides, the current thread runs, in its address space.
pub record IsScheduled (s : Sched) (q zs : List Ptr) : Type 0 where
  pub queues : Queues s q zs
  pub current_ne_null : s.current ≢ null
  pub current_running : (s.threads s.current).state ≡ running
  pub space_loaded : has_space s ≡ true

pub has-tail : (xs : List Ptr) (t : Ptr) → t ≡ last xs → t ≢ null → has t xs ≡ true
has-tail [] t e ne = absurd (ne e)
has-tail (x ∷ xs) t e ne = ap (λ u. has u (x ∷ xs)) e ∙ has-last x xs

-- A thread of one state is in no list of threads of another.
pub not_has :
    (s : Sched) (st st' : ThreadState) (xs : List Ptr) (p : Ptr)
    → AllIn s st xs
    → (s.threads p).state ≡ st'
    → st ≢ st'
    → has p xs ≡ false
not_has s st st' xs p all e ne = elim (Bool-cases (has p xs)) [
  | inl h ↦ absurd (ne (sym (all p h) ∙ e))
  | inr h ↦ h
]

-- What a step does not touch in a thread, whatever it does to the links and the state.
pub record SameThread (t t' : Thread) : Type 0 where
  pub id : t'.id ≡ t.id
  pub space : t'.space ≡ t.space
  pub process : t'.process ≡ t.process
  pub kernel_stack_top : t'.kernel_stack_top ≡ t.kernel_stack_top
  pub wait_next : t'.wait_next ≡ t.wait_next

pub SameThread-trans : {t u v : Thread} → SameThread t u → SameThread u v → SameThread t v
SameThread-trans a b = record {
  id = b.id ∙ a.id;
  space = b.space ∙ a.space;
  process = b.process ∙ a.process;
  kernel_stack_top = b.kernel_stack_top ∙ a.kernel_stack_top;
  wait_next = b.wait_next ∙ a.wait_next;
}

pub set_state-SameThread :
    (s : Sched) (t : Ptr) (st : ThreadState) (p : Ptr)
    → SameThread (s.threads p) ((set_state s t st).threads p)
set_state-SameThread s t st p = record {
  id = ground arith;
  space = ground arith;
  process = ground arith;
  kernel_stack_top = ground arith;
  wait_next = ground arith;
}

-- `sched_enqueue t s`, read through its effect on each thread.
pub record Enqueued (t : Ptr) (s s' : Sched) : Type 0 where
  pub next :
      (p : Ptr)
      → next_of s' p ≡ (
          if not (s.ready_tail == null) && s.ready_tail == p
          then t
          else if t == p
          then null
          else next_of s p)
  pub state : (p : Ptr) → (s'.threads p).state ≡ (s.threads p).state
  pub same : (p : Ptr) → SameThread (s.threads p) (s'.threads p)
  pub ready_head : s'.ready_head ≡ (if s.ready_tail == null then t else s.ready_head)
  pub ready_tail : s'.ready_tail ≡ t
  pub current : s'.current ≡ s.current
  pub zombie_head : s'.zombie_head ≡ s.zombie_head
  pub zombie_tail : s'.zombie_tail ≡ s.zombie_tail
  pub ready_count : s'.ready_count ≡ s.ready_count + 1
  pub loaded_space : s'.loaded_space ≡ s.loaded_space

pub enqueue-Enqueued : (t : Ptr) (s : Sched) → Enqueued t s (sched_enqueue t s)
unfolding sched_enqueue
enqueue-Enqueued t s = record {
  next = λ p. ground arith;
  state = λ p. ground arith;
  same = λ p. ground arith;
  ready_head = ground arith;
  ready_tail = ground arith;
  current = ground arith;
  zombie_head = ground arith;
  zombie_tail = ground arith;
  ready_count = ground arith;
  loaded_space = ground arith;
}

module _ {s s' : Sched} {q zs : List Ptr} (i : Queues s q zs) (t : Ptr) where
  -- A thread in state READY that is appended to the ready queue.
  pub Enqueued-Queues :
      Enqueued t s s'
      → t ≢ null
      → (s.threads t).state ≡ ready
      → has t q ≡ false
      → Queues s' (q ++ (t ∷ [])) zs
  Enqueued-Queues f ne st out =
      let out_zs : has t zs ≡ false = not_has s dead ready zs t i.all_dead st (λ e. cc) in
      record {
        ready_queue =
            rw (f.ready_head, f.ready_tail)
              (push-IsQueue q t i.ready_queue ne out (λ p h l. ground (arith, f.next p))
                (λ l. ground (arith, f.next s.ready_tail))
                (ground (arith, f.next t, has-tail q s.ready_tail i.ready_queue.at_end)));
        zombies =
            rw (f.zombie_head, f.zombie_tail)
              (IsQueue-frame i.zombies λ p h. ground (
                arith,
                f.next p,
                has-tail q s.ready_tail i.ready_queue.at_end,
                i.all_ready s.ready_tail,
                i.all_dead p,
              ));
        all_ready = λ p h. f.state p ∙ ground (arith, has-append p q (t ∷ []), i.all_ready p);
        all_dead = λ p h. f.state p ∙ i.all_dead p h;
        count = omega (arith, f.ready_count, i.count, length-append q (t ∷ []));
      }

-- `ready_dequeue s` of a queue that is not empty, read through its effect on each thread.
pub record Dequeued (s : Sched) (taken : Ptr) (s' : Sched) : Type 0 where
  pub next : (p : Ptr) → next_of s' p ≡ (if s.ready_head == p then null else next_of s p)
  pub state : (p : Ptr) → (s'.threads p).state ≡ (s.threads p).state
  pub same : (p : Ptr) → SameThread (s.threads p) (s'.threads p)
  pub head_taken : taken ≡ s.ready_head
  pub ready_head : s'.ready_head ≡ next_of s s.ready_head
  pub ready_tail : s'.ready_tail ≡ (if next_of s s.ready_head == null then null else s.ready_tail)
  pub current : s'.current ≡ s.current
  pub zombie_head : s'.zombie_head ≡ s.zombie_head
  pub zombie_tail : s'.zombie_tail ≡ s.zombie_tail
  pub ready_count : s'.ready_count ≡ s.ready_count - 1
  pub loaded_space : s'.loaded_space ≡ s.loaded_space

pub dequeue-Dequeued :
    (s : Sched) → s.ready_head ≢ null → let (t, s') = ready_dequeue s in Dequeued s t s'
unfolding ready_dequeue
dequeue-Dequeued s ne =
    let full : (s.ready_head == null) ≡ false = ground arith in
    rw full (record {
      next = λ p. ground arith;
      state = λ p. ground arith;
      same = λ p. ground arith;
      head_taken = refl;
      ready_head = refl;
      ready_tail = refl;
      current = refl;
      zombie_head = refl;
      zombie_tail = refl;
      ready_count = refl;
      loaded_space = refl;
    })

-- The head is taken and the rest stays queued.
pub Dequeued-Queues :
    {s s' : Sched} {t : Ptr} (x : Ptr) (q : List Ptr) {zs : List Ptr}
    → Queues s (x ∷ q) zs
    → Dequeued s t s'
    → Queues s' q zs
Dequeued-Queues {s} {s'} x q {zs} i f =
    let (e, ne, popped) =
      pop-IsQueue {next' = next_of s'} x q i.ready_queue
        λ p h. ground (arith, f.next p, i.ready_queue.chain, i.ready_queue.distinct) in
    let out : has x zs ≡ false =
      not_has s dead ready zs x i.all_dead (i.all_ready x (ground arith)) (λ z. cc) in
    record {
      ready_queue = rw (f.ready_head, f.ready_tail, e) popped;
      zombies =
          rw (f.zombie_head, f.zombie_tail)
            (IsQueue-frame i.zombies λ p h. ground (arith, f.next p));
      all_ready = λ p h. f.state p ∙ i.all_ready p (ground arith);
      all_dead = λ p h. f.state p ∙ i.all_dead p h;
      count = omega (arith, f.ready_count, i.count);
    }

pub dequeue-nil : {s : Sched} {zs : List Ptr} → Queues s [] zs → ready_dequeue s ≡ (null, s)
unfolding ready_dequeue
dequeue-nil i = ground (arith, i.ready_queue.chain)

-- A change of state of a thread that stands in neither queue.
pub set_state-Queues :
    {s : Sched} {q zs : List Ptr} (t : Ptr) (st : ThreadState)
    → Queues s q zs
    → has t q ≡ false
    → has t zs ≡ false
    → Queues (set_state s t st) q zs
set_state-Queues {s} t st i out out_zs = record {
  ready_queue = IsQueue-frame i.ready_queue λ p h. ground arith;
  zombies = IsQueue-frame i.zombies λ p h. ground arith;
  all_ready = λ p h. ground (arith, i.all_ready p);
  all_dead = λ p h. ground (arith, i.all_dead p);
  count = i.count;
}
