-- ===== src/Kernel/Waitq/Fifo.antt =====
-- A wait queue is a FIFO of blocked threads.
use exyde.Common.{
  append-nil, ◌≡◌, ◌≢◌, refl, ap, ◌∙◌, sym, true, false, not, ◌&&◌, List, [], ◌∷◌, ◌++◌, arith,
  ◌==◌, if◌then◌else◌,
}
use exyde.Kernel.Chain.{
  Ptr, null, has, IsQueue, IsQueue-frame, has-append, push-IsQueue, pop-IsQueue,
}
use exyde.Kernel.Sched.{blocked, running, Sched, sched_block}
use exyde.Kernel.Sched.Frame.{SameQueues, SameQueues-IsScheduled}
use exyde.Kernel.Sched.Ready.{AllIn, IsScheduled, not_has, has-tail}
use exyde.Kernel.Sched.Switch.{Switched, Switched-map, Resumed}
use exyde.Kernel.Sched.Turn.{block-Resumed}
use exyde.Kernel.Sched.Events.{unblock-IsScheduled, unblock-others}
use exyde.Kernel.Waitq.{Waitq, waitq_push, waitq_pop, wake_one, wait_on}

abbrev pub wait_of : Sched → Ptr → Ptr
wait_of s p = (s.threads p).wait_next

-- The threads `ts` wait in `q`, the first one first.
pub record Waits (q : Waitq) (s : Sched) (ts : List Ptr) : Type 0 where
  pub queue : IsQueue (wait_of s) q.head q.tail ts
  pub all_blocked : AllIn s blocked ts

-- `waitq_push q t s`, read through its effect.
record Pushed (q : Waitq) (t : Ptr) (s : Sched) (q' : Waitq) (s' : Sched) : Type 0 where
  kept : SameQueues s s'
  wait :
      (p : Ptr)
      → wait_of s' p
        ≡ (if not (q.tail == null) && q.tail == p then t else if t == p then null else wait_of s p)
  head : q'.head ≡ (if q.tail == null then t else q.head)
  tail : q'.tail ≡ t

push-Pushed :
    (q : Waitq) (t : Ptr) (s : Sched) → let (q', s') = waitq_push q t s in Pushed q t s q' s'
unfolding waitq_push
push-Pushed q t s = record {
  kept = record {
    state = λ p. ground arith;
    next = λ p. ground arith;
    space = λ p. ground arith;
    current = ground arith;
    ready_head = ground arith;
    ready_tail = ground arith;
    zombie_head = ground arith;
    zombie_tail = ground arith;
    ready_count = ground arith;
    loaded_space = ground arith;
  };
  wait = λ p. ground arith;
  head = ground arith;
  tail = ground arith;
}

-- `waitq_pop q s` of a queue that is not empty, read through its effect.
record Popped (q : Waitq) (s : Sched) (t : Ptr) (q' : Waitq) (s' : Sched) : Type 0 where
  kept : SameQueues s s'
  taken : t ≡ q.head
  wait : (p : Ptr) → wait_of s' p ≡ (if q.head == p then null else wait_of s p)
  head : q'.head ≡ wait_of s q.head
  tail : q'.tail ≡ (if wait_of s q.head == null then null else q.tail)

pop-Popped :
    (q : Waitq) (s : Sched) → q.head ≢ null → let (t, q', s') = waitq_pop q s in Popped q s t q' s'
unfolding waitq_pop
pop-Popped q s ne =
    let full : (q.head == null) ≡ false = ground arith in
    rw full (record {
      kept = record {
        state = λ p. ground arith;
        next = λ p. ground arith;
        space = λ p. ground arith;
        current = refl;
        ready_head = refl;
        ready_tail = refl;
        zombie_head = refl;
        zombie_tail = refl;
        ready_count = refl;
        loaded_space = refl;
      };
      taken = refl;
      wait = λ p. ground arith;
      head = refl;
      tail = refl;
    })

-- A thread that blocks is the last of the queue.
Pushed-Waits :
    {q q' : Waitq} {s s' : Sched} (t : Ptr) (ts : List Ptr)
    → Waits q s ts
    → Pushed q t s q' s'
    → t ≢ null
    → has t ts ≡ false
    → IsQueue (wait_of s') q'.head q'.tail (ts ++ (t ∷ []))
Pushed-Waits {q} {s} t ts w f ne out =
    rw (f.head, f.tail)
      (push-IsQueue ts t w.queue ne out (λ p h l. ground (arith, f.wait p))
        (λ l. ground (arith, f.wait q.tail))
        (ground (arith, f.wait t, has-tail ts q.tail w.queue.at_end)))

-- Where the scheduler's invariant holds with a thread ready, the current thread waits behind the
-- threads `ts`, blocked, and the first ready thread resumes with the invariant kept.
pub wait_on-Waits :
    (q : Waitq) (s : Sched) (ts : List Ptr) (x : Ptr) (rq zs : List Ptr)
    → Waits q s ts
    → IsScheduled s (x ∷ rq) zs
    → let (q', o) = wait_on q s in
      Switched
        (λ s'. (s'.current ≡ x) × IsScheduled s' rq zs × Waits q' s' (ts ++ (s.current ∷ [])))
        o
unfolding wait_on
wait_on-Waits q s ts x rq zs w i =
    let c = s.current in
    let s₁ = (waitq_push q c s).1 in
    let f = push-Pushed q c s in
    let out : has c ts ≡ false =
      not_has s blocked running ts c w.all_blocked i.current_running (λ z. cc) in
    let queued = Pushed-Waits c ts w f i.current_ne_null out in
    Switched-map (Resumed s₁ x blocked rq zs) _ (sched_block s₁)
      (λ s' r. (
        r.current,
        r.scheduled,
        record {
          queue = IsQueue-frame queued λ p h. (r.same p).wait_next;
          all_blocked = λ p h. ground (
            arith,
            r.states p,
            f.kept.state p,
            f.kept.current,
            has-append p ts (c ∷ []),
            w.all_blocked p,
            i.queues.all_ready x,
            i.current_running,
          );
        },
      ))
      (block-Resumed x rq (SameQueues-IsScheduled i f.kept))

abbrev pub woken : List Ptr → List Ptr
woken [] = []
woken (t ∷ ts) = t ∷ []

abbrev pub still_waiting : List Ptr → List Ptr
still_waiting [] = []
still_waiting (t ∷ ts) = ts

pub pop-head : (q : Waitq) (s : Sched) → q.head ≢ null → (waitq_pop q s).0 ≡ q.head
pop-head q s ne = (pop-Popped q s ne).taken

pub pop-null : (q : Waitq) (s : Sched) → q.head ≡ null → waitq_pop q s ≡ (null, q, s)
unfolding waitq_pop
pop-null q s e = let z : (q.head == null) ≡ true = ground arith in rw z refl

-- Where the scheduler's invariant holds, the first waiting thread, if there is one, is made ready
-- behind the others, the rest keep waiting, and the invariant holds again.
pub wake_one-Waits :
    (q : Waitq) (s : Sched) (ts rq zs : List Ptr)
    → Waits q s ts
    → IsScheduled s rq zs
    → let (q', s') = wake_one q s in
      Waits q' s' (still_waiting ts) × IsScheduled s' (rq ++ woken ts) zs
unfolding wake_one
wake_one-Waits q s [] rq zs w i = rw (pop-null q s w.queue.chain, append-nil rq) (w, i)
wake_one-Waits q s (t ∷ ts) rq zs w i =
    let s₁ = (waitq_pop q s).2 in
    let f = pop-Popped q s (λ z. w.queue.chain.1 (sym w.queue.chain.0 ∙ z)) in
    let (e, _, popped) =
      pop-IsQueue {next' = wait_of s₁} t ts w.queue
        λ p h. ground (arith, f.wait p, w.queue.distinct, w.queue.chain) in
    let ne : t ≢ null = w.queue.chain.1 in
    let out : has t ts ≡ false = w.queue.distinct.0 in
    let hd = f.head ∙ ap (wait_of s) e in
    let tl = f.tail ∙ ap (λ u. if wait_of s u == null then null else q.tail) e in
    let at : (waitq_pop q s).0 ≡ t = f.taken ∙ e in
    let some : (t == null) ≡ false = ground arith in
    let st : (s₁.threads t).state ≡ blocked = f.kept.state t ∙ w.all_blocked t (ground arith) in
    rw (at, some)
      (
        record {
          queue = rw (hd, tl) (IsQueue-frame popped λ p h. (unblock-others s₁ t p).1);
          all_blocked = λ p h.
              (unblock-others s₁ t p).0 (λ z. cc)
              ∙ (f.kept.state p ∙ w.all_blocked p (ground arith));
        },
        unblock-IsScheduled t (SameQueues-IsScheduled i f.kept) ne st,
      )
