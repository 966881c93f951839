-- ===== src/Kernel/Sched/Exit.antt =====
-- The zombie list: `thread_exit` puts the current thread there and gives up the processor.
use exyde.Common.{
  ◌≡◌, ◌≢◌, refl, ◌∙◌, false, not, ◌&&◌, List, [], ◌∷◌, ◌++◌, arith, ◌==◌, if◌then◌else◌,
}
use exyde.Kernel.Chain.{Ptr, null, has, IsQueue-frame, has-append, push-IsQueue}
use exyde.Kernel.Sched.{
  ready, dead, Sched, set_state, Outcome, stay, switch, panic, sched_schedule, thread_exit,
  no_return, zombie_push,
}
use exyde.Kernel.Sched.Ready.{
  next_of, Queues, IsScheduled, not_has, SameThread, SameThread-trans, set_state-Queues,
  set_state-SameThread, has-tail,
}
use exyde.Kernel.Sched.Switch.{Switched, Resumed, Resumed-after}
use exyde.Kernel.Sched.Turn.{schedule-stopped, current_not_ready, current_not_zombie}

-- `zombie_push t s`, read through its effect on each thread.
record Buried (t : Ptr) (s s' : Sched) : Type 0 where
  next :
      (p : Ptr)
      → next_of s' p ≡ (
          if not (s.zombie_tail == null) && s.zombie_tail == p
          then t
          else if t == p
          then null
          else next_of s p)
  state : (p : Ptr) → (s'.threads p).state ≡ (s.threads p).state
  same : (p : Ptr) → SameThread (s.threads p) (s'.threads p)
  zombie_head : s'.zombie_head ≡ (if s.zombie_tail == null then t else s.zombie_head)
  zombie_tail : s'.zombie_tail ≡ t
  current : s'.current ≡ s.current
  ready_head : s'.ready_head ≡ s.ready_head
  ready_tail : s'.ready_tail ≡ s.ready_tail
  ready_count : s'.ready_count ≡ s.ready_count
  loaded_space : s'.loaded_space ≡ s.loaded_space

zombie_push-Buried : (t : Ptr) (s : Sched) → Buried t s (zombie_push t s)
unfolding zombie_push
zombie_push-Buried t s = record {
  next = λ p. ground arith;
  state = λ p. ground arith;
  same = λ p. ground arith;
  zombie_head = ground arith;
  zombie_tail = ground arith;
  current = ground arith;
  ready_head = ground arith;
  ready_tail = ground arith;
  ready_count = ground arith;
  loaded_space = ground arith;
}

-- A dead thread that stands in neither queue is appended to the zombie list.
Buried-Queues :
    {s s' : Sched} {q zs : List Ptr} (t : Ptr)
    → Queues s q zs
    → Buried t s s'
    → t ≢ null
    → (s.threads t).state ≡ dead
    → has t zs ≡ false
    → Queues s' q (zs ++ (t ∷ []))
Buried-Queues {s} {s'} {q} {zs} t i f ne st out =
    let out_q : has t q ≡ false = not_has s ready dead q t i.all_ready st (λ e. cc) in
    record {
      ready_queue =
          rw (f.ready_head, f.ready_tail)
            (IsQueue-frame i.ready_queue λ p h. ground (
              arith,
              f.next p,
              has-tail zs s.zombie_tail i.zombies.at_end,
              i.all_dead s.zombie_tail,
              i.all_ready p,
            ));
      zombies =
          rw (f.zombie_head, f.zombie_tail)
            (push-IsQueue zs t i.zombies ne out (λ p h l. ground (arith, f.next p))
              (λ l. ground (arith, f.next s.zombie_tail))
              (ground (arith, f.next t, has-tail zs s.zombie_tail i.zombies.at_end)));
      all_ready = λ p h. f.state p ∙ i.all_ready p h;
      all_dead = λ p h. f.state p ∙ ground (arith, has-append p zs (t ∷ []), i.all_dead p);
      count = f.ready_count ∙ i.count;
    }

Switched-no_return : (P : Sched → Type 0) (o : Outcome) → Switched P o → Switched P (no_return o)
Switched-no_return P (stay s) p = p
Switched-no_return P (switch s) p = p
Switched-no_return P panic p = p

-- Where the invariant holds with a thread ready, an exit makes the current thread the last zombie,
-- the first ready thread resumes, and the invariant holds again.
pub exit-Resumed :
    {s : Sched} (x : Ptr) (q : List Ptr) {zs : List Ptr}
    → IsScheduled s (x ∷ q) zs
    → Switched (Resumed s x dead q (zs ++ (s.current ∷ []))) (thread_exit s)
unfolding thread_exit
exit-Resumed {s} x q {zs} i =
    let c = s.current in
    let s₁ = set_state s c dead in
    let s₂ = zombie_push c s₁ in
    let f = zombie_push-Buried c s₁ in
    let j = set_state-Queues c dead i.queues (current_not_ready i) (current_not_zombie i) in
    let k = Buried-Queues c j f i.current_ne_null (ground arith) (current_not_zombie i) in
    Switched-no_return (Resumed s x dead q (zs ++ (c ∷ []))) (sched_schedule s₂) (
      Resumed-after s s₂ (sched_schedule s₂) x dead _ _ f.current (λ p ne. f.state p ∙ ground arith)
        (λ p. SameThread-trans (set_state-SameThread s c dead p) (f.same p))
        (schedule-stopped x q k dead (rw f.current (f.state c ∙ ground arith)) refl
          (rw (f.current, f.loaded_space, (f.same c).space) (ground (arith, i.space_loaded)))))
