-- ===== src/Kernel/Sched/Reap.antt =====
-- The reaper: every zombie is freed once, in order, and the zombie list ends empty.
use exyde.Common.{
  ℕ, zero, suc, ◌≤◌, ◌≡◌, refl, ap, ap₂, ◌∙◌, Bool, true, false, not, ◌&&◌, if◌then◌else◌, ◌+◌,
  List, [], ◌∷◌, ◌++◌, arith, ◌==◌, update, length,
}
use exyde.Kernel.Chain.{Ptr, null, has, Distinct, Chain, IsQueue-frame, frame}
use exyde.Kernel.Sched.{
  ready, dead, Thread, Sched, Effect, process_unref, vmm_space_unref, free_stack, free_thread,
  thread_effects, reap_loop, reap_zombies,
}
use exyde.Kernel.Sched.Ready.{next_of, IsScheduled, not_has}

-- What the death of a thread takes along: a reference to its process if it is the main thread of
-- it, a reference to its space and its stack where it has them, and the thread itself.
abbrev pub owns : (Ptr → Ptr) → Ptr → Thread → Effect → Bool
owns main_thread p t (process_unref pr) =
    not (pr == null) && ((t.process == pr) && (main_thread pr == p))
owns main_thread p t (vmm_space_unref sp) = not (sp == null) && (t.space == sp)
owns main_thread p t (free_stack b) = not (b == 0) && (t.stack_base == b)
owns main_thread p t (free_thread q) = q == p

abbrev pub same_effect : Effect → Effect → Bool
same_effect (process_unref p) (process_unref q) = p == q
same_effect (vmm_space_unref p) (vmm_space_unref q) = p == q
same_effect (free_stack b) (free_stack c) = b == c
same_effect (free_thread p) (free_thread q) = p == q
same_effect _ _ = false

-- How often the effect is among the effects.
unfoldable pub times : Effect → List Effect → ℕ
times e [] = 0
times e (x ∷ xs) = if same_effect e x then times e xs + 1 else times e xs

-- The effects are those of the threads of the list one after the other, and for each thread what it
-- owns is freed once and nothing else is.
abbrev pub Reaped : (Ptr → Ptr) → (Ptr → Thread) → List Ptr → List Effect → Type 0
Reaped main_thread threads [] effects = effects ≡ []
Reaped main_thread threads (z ∷ zs) effects =
    (own : List Effect) × (rest : List Effect) × (effects ≡ own ++ rest)
    × ((e : Effect) → times e own ≡ (if owns main_thread z (threads z) e then 1 else 0))
    × Reaped main_thread threads zs rest

times-effects :
    (main_thread : Ptr → Ptr) (p : Ptr) (t : Thread) (e : Effect)
    → times e (thread_effects main_thread p t) ≡ (if owns main_thread p t e then 1 else 0)
unfolding times thread_effects
times-effects main_thread p t (process_unref pr) = ground arith
times-effects main_thread p t (vmm_space_unref sp) = ground arith
times-effects main_thread p t (free_stack b) = ground arith
times-effects main_thread p t (free_thread q) = ground arith

abbrev reaped : (Ptr → Ptr) → (Ptr → Thread) → List Ptr → List Effect
reaped main_thread threads [] = []
reaped main_thread threads (z ∷ zs) =
    thread_effects main_thread z (threads z) ++ reaped main_thread threads zs

reaped-Reaped :
    (main_thread : Ptr → Ptr) (threads : Ptr → Thread) (zs : List Ptr) (effects : List Effect)
    → effects ≡ reaped main_thread threads zs
    → Reaped main_thread threads zs effects
reaped-Reaped main_thread threads [] effects e = e
reaped-Reaped main_thread threads (z ∷ zs) effects e = (
  thread_effects main_thread z (threads z),
  reaped main_thread threads zs,
  e,
  times-effects main_thread z (threads z),
  reaped-Reaped main_thread threads zs (reaped main_thread threads zs) refl,
)

-- The reaper unlinks the zombies `zs` and changes nothing else.
record Unlinked (zs : List Ptr) (s s' : Sched) : Type 0 where
  next : (p : Ptr) → has p zs ≡ false → next_of s' p ≡ next_of s p
  state : (p : Ptr) → (s'.threads p).state ≡ (s.threads p).state
  space : (p : Ptr) → (s'.threads p).space ≡ (s.threads p).space
  current : s'.current ≡ s.current
  ready_head : s'.ready_head ≡ s.ready_head
  ready_tail : s'.ready_tail ≡ s.ready_tail
  zombie_head : s'.zombie_head ≡ s.zombie_head
  zombie_tail : s'.zombie_tail ≡ s.zombie_tail
  ready_count : s'.ready_count ≡ s.ready_count
  loaded_space : s'.loaded_space ≡ s.loaded_space

unlinked : (s : Sched) → Unlinked [] s s
unlinked s = record {
  next = λ p h. refl;
  state = λ p. refl;
  space = λ p. refl;
  current = refl;
  ready_head = refl;
  ready_tail = refl;
  zombie_head = refl;
  zombie_tail = refl;
  ready_count = refl;
  loaded_space = refl;
}

relinked :
    (z x : Ptr) (zs : List Ptr) (s : Sched) {s' : Sched}
    → z ≡ x
    → Unlinked zs
        (record s { threads = update s.threads z (record (s.threads z) { next = null }) })
        s'
    → Unlinked (x ∷ zs) s s'
relinked z x zs s at f = record {
  next = λ p h. ground (arith, f.next p);
  state = λ p. f.state p ∙ ground arith;
  space = λ p. f.space p ∙ ground arith;
  current = f.current;
  ready_head = f.ready_head;
  ready_tail = f.ready_tail;
  zombie_head = f.zombie_head;
  zombie_tail = f.zombie_tail;
  ready_count = f.ready_count;
  loaded_space = f.loaded_space;
}

-- Only the link of a thread outside the list changes, which no effect reads.
reaped-update :
    (main_thread : Ptr → Ptr) (threads : Ptr → Thread) (z : Ptr) (t : Thread) (zs : List Ptr)
    → has z zs ≡ false
    → reaped main_thread (update threads z t) zs ≡ reaped main_thread threads zs
reaped-update main_thread threads z t [] out = refl
reaped-update main_thread threads z t (y ∷ zs) out =
    let ne : (z == y) ≡ false = ground arith in
    ap₂ (λ u r. thread_effects main_thread y u ++ r) (rw ne refl)
      (reaped-update main_thread threads z t zs (ground arith))

effects_unlinked :
    (main_thread : Ptr → Ptr) (z : Ptr) (t : Thread) (n : Ptr)
    → thread_effects main_thread z (record t { next = n }) ≡ thread_effects main_thread z t
unfolding thread_effects
effects_unlinked main_thread z t n = refl

module _ (main_thread : Ptr → Ptr) where
  reap_loop_lem :
      (n : ℕ) (z : Ptr) (zs : List Ptr) (s : Sched)
      → Chain (next_of s) z zs
      → Distinct zs
      → length zs ≤ n
      → ((reap_loop main_thread n z s).0 ≡ reaped main_thread s.threads zs)
        × Unlinked zs s (reap_loop main_thread n z s).1
  unfolding reap_loop
  reap_loop_lem zero z [] s c d le = (refl, unlinked s)
  reap_loop_lem (suc n) z [] s c d le =
      let end : (z == null) ≡ true = ground arith in rw end (refl, unlinked s)
  reap_loop_lem zero z (x ∷ zs) s c d le = absurd (omega arith)
  reap_loop_lem (suc n) z (x ∷ zs) s (at, nx, c) d le =
      let out : has z zs ≡ false = ap (λ u. has u zs) at ∙ d.0 in
      let t = record (s.threads z) { next = null } in
      let s₁ = record s { threads = update s.threads z t } in
      let (e, f) =
        reap_loop_lem n (next_of s z) zs s₁ (rw at (frame zs (next_of s x) c (λ p h. ground arith)))
          d.1 (omega arith) in
      let ne : (z == null) ≡ false = ground arith in
      rw ne (
        ap₂ (λ a b. a ++ b) (effects_unlinked main_thread z (s.threads z) null)
              (e ∙ reaped-update main_thread s.threads z t zs out)
            ∙ ap
                (λ u. thread_effects main_thread u (s.threads u) ++ reaped main_thread s.threads zs)
                at,
        relinked z x zs s at f,
      )

  -- Where the invariant holds and the fuel is enough for the zombies, the reaper frees, zombie after
  -- zombie in the order they died, all that the zombie owns once and nothing else: its thread, its
  -- stack and its references to its space and, for a main thread, its process. It leaves the zombie
  -- list empty and keeps the rest of the invariant.
  pub reap-IsScheduled :
      (fuel : ℕ) {s : Sched} {q zs : List Ptr}
      → IsScheduled s q zs
      → length zs ≤ fuel
      → let (effects, s') = reap_zombies main_thread fuel s in
        Reaped main_thread s.threads zs effects × IsScheduled s' q []
  unfolding reap_zombies
  reap-IsScheduled fuel {s} {q} {zs} i le =
      let j = i.queues in
      let s₀ = record s { zombie_head = null; zombie_tail = null } in
      let (e, f) = reap_loop_lem fuel s.zombie_head zs s₀ j.zombies.chain j.zombies.distinct le in
      (
        reaped-Reaped main_thread s.threads zs _ e,
        record {
          queues = record {
            ready_queue =
                rw (f.ready_head, f.ready_tail)
                  (IsQueue-frame j.ready_queue λ p h.
                    f.next p (not_has s dead ready zs p j.all_dead (j.all_ready p h) (λ z. cc)));
            zombies = record { chain = f.zombie_head; at_end = f.zombie_tail; distinct = tt };
            all_ready = λ p h. f.state p ∙ j.all_ready p h;
            all_dead = λ p h. ground arith;
            count = f.ready_count ∙ j.count;
          };
          current_ne_null = rw f.current i.current_ne_null;
          current_running = rw f.current (f.state s.current ∙ i.current_running);
          space_loaded = rw (f.current, f.loaded_space, f.space s.current) i.space_loaded;
        },
      )
