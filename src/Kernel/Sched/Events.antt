-- ===== src/Kernel/Sched/Events.antt =====
-- The scheduler's start, the timer tick with the preemption that follows it, and the wake-up.
use exyde.Common.{
  Bool-cases, inl, inr, ℕ, zero, suc, ◌+◌, ◌≤◌, ◌≡◌, ◌≢◌, refl, ap, ◌∙◌, sym, true, false, not,
  ◌||◌, List, [], ◌∷◌, ◌++◌, arith, ◌==◌,
}
use exyde.Kernel.Chain.{Ptr, null, has}
use exyde.Kernel.Sched.{
  ready, blocked, dead, Sched, set_state, is_blocked, sched_init, sched_tick, sched_unblock,
}
use exyde.Kernel.Sched.Frame.{SameQueues, SameQueues-IsScheduled}
use exyde.Kernel.Sched.Ready.{
  IsScheduled, not_has, set_state-Queues, enqueue-Enqueued, Enqueued-Queues,
}

-- `sched_init` makes a boot thread that is not NULL the running one, with empty queues, and the
-- invariant holds where the kernel's space was loaded before.
pub init-IsScheduled :
    (boot : Ptr) (top : ℕ) (kernel_space : Ptr) (s : Sched)
    → boot ≢ null
    → s.loaded_space ≡ kernel_space
    → IsScheduled (sched_init boot top kernel_space s) [] []
unfolding sched_init
init-IsScheduled boot top kernel_space s ne l = record {
  queues = record {
    ready_queue = record { chain = refl; at_end = refl; distinct = tt };
    zombies = record { chain = refl; at_end = refl; distinct = tt };
    all_ready = λ p h. ground arith;
    all_dead = λ p h. ground arith;
    count = refl;
  };
  current_ne_null = ne;
  current_running = ground arith;
  space_loaded = ground arith;
}

-- A wake-up of a blocked thread that is not NULL puts it last in the ready queue and keeps the invariant.
pub unblock-IsScheduled :
    {s : Sched} {q zs : List Ptr} (t : Ptr)
    → IsScheduled s q zs
    → t ≢ null
    → (s.threads t).state ≡ blocked
    → IsScheduled (sched_unblock t s) (q ++ (t ∷ [])) zs
unfolding sched_unblock
unblock-IsScheduled {s} {q} {zs} t i ne st =
    let s₁ = set_state s t ready in
    let b : is_blocked (s.threads t).state ≡ true = ap is_blocked st in
    let f = enqueue-Enqueued t s₁ in
    let out : has t q ≡ false = not_has s ready blocked q t i.queues.all_ready st (λ z. cc) in
    let out_z : has t zs ≡ false = not_has s dead blocked zs t i.queues.all_dead st (λ z. cc) in
    let other : t ≢ s.current = λ e. cc in
    rw b (record {
      queues =
          Enqueued-Queues (set_state-Queues t ready i.queues out out_z) t f ne (ground arith) out;
      current_ne_null = rw f.current i.current_ne_null;
      current_running = rw f.current (f.state s.current ∙ ground (arith, i.current_running));
      space_loaded =
          rw (f.current, f.loaded_space, (f.same s.current).space) (ground (arith, i.space_loaded));
    })

-- A wake-up leaves the other threads' states and every link of a wait queue.
pub unblock-others :
    (s : Sched) (t p : Ptr)
    → (p ≢ t → ((sched_unblock t s).threads p).state ≡ (s.threads p).state)
      × (((sched_unblock t s).threads p).wait_next ≡ (s.threads p).wait_next)
unfolding sched_unblock
unblock-others s t p = elim (Bool-cases (is_blocked (s.threads t).state)) [
  | inl b ↦
      let f = enqueue-Enqueued t (set_state s t ready) in
      rw b (λ ne. f.state p ∙ ground arith, (f.same p).wait_next ∙ ground arith)
  | inr b ↦ rw b (λ ne. refl, refl)
]

-- A wake-up of any other thread does nothing.
pub unblock-other :
    (s : Sched) (t : Ptr) → is_blocked (s.threads t).state ≡ false → sched_unblock t s ≡ s
unfolding sched_unblock
unblock-other s t e = rw e refl

tick-SameQueues : (s : Sched) → SameQueues s (sched_tick s)
unfolding sched_tick
tick-SameQueues s = record {
  state = λ p. ground arith;
  next = λ p. ground arith;
  space = λ p. ground arith;
  current = ground arith;
  ready_head = ground arith;
  ready_tail = ground arith;
  zombie_head = ground arith;
  zombie_tail = ground arith;
  ready_count = ground arith;
  loaded_space = ground arith;
}

-- The timer tick keeps the invariant, with the same threads queued.
pub tick-IsScheduled :
    {s : Sched} {q zs : List Ptr} → IsScheduled s q zs → IsScheduled (sched_tick s) q zs
tick-IsScheduled {s} i = SameQueues-IsScheduled i (tick-SameQueues s)

-- `n` timer ticks in a row.
abbrev pub ticks : ℕ → Sched → Sched
ticks zero s = s
ticks (suc n) s = sched_tick (ticks n s)

module _ (s : Sched) (ne : s.current ≢ null) where
  ticks-current : (n : ℕ) → (ticks n s).current ≡ s.current
  ticks-current zero = refl
  ticks-current (suc n) = (tick-SameQueues (ticks n s)).current ∙ ticks-current n

  ticks-ready_head : (n : ℕ) → (ticks n s).ready_head ≡ s.ready_head
  ticks-ready_head zero = refl
  ticks-ready_head (suc n) = (tick-SameQueues (ticks n s)).ready_head ∙ ticks-ready_head n

tick_early :
    (s : Sched)
    → s.current ≢ null
    → (s.threads s.current).ticks_used + 1 ≤ 4
    → (((sched_tick s).threads s.current).ticks_used ≡ (s.threads s.current).ticks_used + 1)
      × ((sched_tick s).need_resched ≡ s.need_resched)
unfolding sched_tick
tick_early s ne le = (ground arith, ground arith)

tick_last :
    (s : Sched)
    → s.current ≢ null
    → (s.threads s.current).ticks_used ≡ 4
    → (((sched_tick s).threads s.current).ticks_used ≡ 0)
      × ((sched_tick s).need_resched ≡ (not (s.ready_head == null) || s.need_resched))
unfolding sched_tick
tick_last s ne e = (ground arith, ground arith)

module _ (s : Sched) (ne : s.current ≢ null) where
  -- Within the quantum the ticks are only counted.
  ticks_early :
      (n : ℕ)
      → n ≤ 4
      → (s.threads s.current).ticks_used ≡ 0
      → (((ticks n s).threads s.current).ticks_used ≡ n)
        × ((ticks n s).need_resched ≡ s.need_resched)
  ticks_early zero le e = (e, refl)
  ticks_early (suc n) le e =
      let (used, flag) = ticks_early n (omega arith) e in
      let c = ticks-current s ne n in
      let here : ((ticks n s).threads (ticks n s).current).ticks_used ≡ n =
        ap (λ p. ((ticks n s).threads p).ticks_used) c ∙ used in
      let (u, f) = tick_early (ticks n s) (rw c ne) (omega (arith, here)) in
      (
        ap (λ p. ((ticks (suc n) s).threads p).ticks_used) (sym c) ∙ omega (arith, u, here),
        f ∙ flag,
      )

  -- From the start of its slice the current thread is not asked to give up the processor in the
  -- first four ticks, and with the fifth it is if and only if another thread is ready.
  pub ticks-quantum :
      (n : ℕ)
      → n ≤ 4
      → (s.threads s.current).ticks_used ≡ 0
      → s.need_resched ≡ false
      → ((ticks n s).need_resched ≡ false) × ((ticks 5 s).need_resched ≡ not (s.ready_head == null))
  ticks-quantum n le e off =
      let (used, flag) = ticks_early 4 (omega arith) e in
      let c = ticks-current s ne 4 in
      let here : ((ticks 4 s).threads (ticks 4 s).current).ticks_used ≡ 4 =
        ap (λ p. ((ticks 4 s).threads p).ticks_used) c ∙ used in
      let (_, last) = tick_last (ticks 4 s) (rw c ne) here in
      ((ticks_early n le e).1 ∙ off, last ∙ rw (ticks-ready_head s ne 4, flag, off) (ground arith))
