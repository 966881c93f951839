-- ===== src/Kernel/Sched.antt =====
-- The scheduler of src/kernel/core/sched.c over the store of threads.
-- Interrupts are off in each function here, or are turned off by
-- it, so each is one step. The switch of stacks itself is assembly: a step ends where
-- `thread_switch` is called, and what the resumed thread does next is a step of its own.
-- `ready_count` counts allocated threads, so it cannot wrap.
pub mod Ready
pub mod Switch
pub mod Turn
pub mod Exit
pub mod Frame
pub mod Events
pub mod Reap
pub mod Tests
use exyde.Common.{
  ℕ, zero, suc, ◌+◌, ◌-◌, ◌%◌, ◌^◌, Bool, true, false, not, ◌&&◌, List, [], ◌∷◌, ◌++◌, leb, ◌==◌,
  if◌then◌else◌, update,
}
use exyde.Kernel.Chain.{Ptr, null}

-- `thread_state_t`.
pub data ThreadState : Type 0 where
  ready running blocked dead : ThreadState

-- `struct thread`, less the saved stack pointer, the entry point with its argument, and the name.
pub record Thread : Type 0 where
  pub state : ThreadState
  pub id : ℕ
  pub ticks_used : ℕ
  pub stack_base : ℕ
  pub stack_size : ℕ
  pub kernel_stack_top : ℕ
  pub space : Ptr
  pub process : Ptr
  pub next : Ptr
  pub wait_next : Ptr

-- The static variables, the store of threads, and what the processor was last told: the kernel
-- stack for traps (`arch_set_kernel_stack`) and the address space (`vmm_switch`).
pub record Sched : Type 0 where
  pub threads : Ptr → Thread
  pub ready_head : Ptr
  pub ready_tail : Ptr
  pub current : Ptr
  pub ready_count : ℕ
  pub need_resched : Bool
  pub zombie_head : Ptr
  pub zombie_tail : Ptr
  pub kernel_stack : ℕ
  pub loaded_space : Ptr

abbrev pub sched_quantum_ticks : ℕ
sched_quantum_ticks = 5

abbrev pub is_running : ThreadState → Bool
is_running running = true
is_running _ = false

abbrev pub is_blocked : ThreadState → Bool
is_blocked blocked = true
is_blocked _ = false

-- `p->next = v` and `p->state = v`.
abbrev pub set_next : Sched → Ptr → Ptr → Sched
set_next s p v = record s { threads = update s.threads p (record (s.threads p) { next = v }) }

abbrev pub set_state : Sched → Ptr → ThreadState → Sched
set_state s p v = record s { threads = update s.threads p (record (s.threads p) { state = v }) }

-- The boot thread at address `boot`, on the stack that ends at `top`, in the kernel's space.
unfoldable pub sched_init : Ptr → ℕ → Ptr → Sched → Sched
sched_init boot top kernel_space s = record {
  threads = update s.threads boot (record {
    state = running;
    id = 0;
    ticks_used = 0;
    stack_base = 0;
    stack_size = 0;
    kernel_stack_top = top;
    space = kernel_space;
    process = null;
    next = null;
    wait_next = null;
  });
  ready_head = null;
  ready_tail = null;
  current = boot;
  ready_count = 0;
  need_resched = false;
  zombie_head = null;
  zombie_tail = null;
  kernel_stack = s.kernel_stack;
  loaded_space = s.loaded_space;
}

unfoldable pub sched_enqueue : Ptr → Sched → Sched
sched_enqueue t s =
    let s₁ = set_next s t null in
    let s₂ =
      if s₁.ready_tail == null
      then record s₁ { ready_head = t; ready_tail = t }
      else record (set_next s₁ s₁.ready_tail t) { ready_tail = t } in
    record s₂ { ready_count = s₂.ready_count + 1 }

unfoldable pub ready_dequeue : Sched → Ptr × Sched
ready_dequeue s =
    let t = s.ready_head in
    let head = (s.threads t).next in
    if t == null then (null, s) else (
      t,
      record (set_next s t null) {
        ready_head = head;
        ready_tail = if head == null then null else s.ready_tail;
        ready_count = s.ready_count - 1;
      },
    )

unfoldable pub zombie_push : Ptr → Sched → Sched
zombie_push t s =
    let s₁ = set_next s t null in
    if s₁.zombie_tail == null
    then record s₁ { zombie_head = t; zombie_tail = t }
    else record (set_next s₁ s₁.zombie_tail t) { zombie_tail = t }

-- How a call of the scheduler ends: the caller goes on, another thread is switched to, or panic.
pub data Outcome : Type 0 where
  stay : Sched → Outcome
  switch : Sched → Outcome
  panic : Outcome

-- The part of `sched_schedule` behind the choice of `next`.
unfoldable pub switch_to : Ptr → Sched → Sched
switch_to next s =
    let prev = s.current in
    let s₁ =
      if is_running (s.threads prev).state
      then sched_enqueue prev (set_state s prev ready)
      else s in
    let t = record (s₁.threads next) { state = running; ticks_used = 0 } in
    let moved = not (t.space == (s₁.threads prev).space) && not (t.space == null) in
    record s₁ {
      threads = update s₁.threads next t;
      current = next;
      kernel_stack = t.kernel_stack_top;
      loaded_space = if moved then t.space else s₁.loaded_space;
    }

unfoldable pub sched_schedule : Sched → Outcome
sched_schedule s =
    let (next, s₁) = ready_dequeue s in
    if next == null
    then (if is_running (s₁.threads s₁.current).state then stay s₁ else panic)
    else switch (switch_to next s₁)

unfoldable pub sched_yield : Sched → Outcome
sched_yield s = if s.ready_head == null then stay s else sched_schedule s

unfoldable pub sched_tick : Sched → Sched
sched_tick s =
    let c = s.threads s.current in
    let ticks = (c.ticks_used + 1) % 2 ^ 32 in
    let expired = leb sched_quantum_ticks ticks in
    if s.current == null then s else record s {
      threads = update s.threads s.current (record c { ticks_used = if expired then 0 else ticks });
      need_resched = if expired && not (s.ready_head == null) then true else s.need_resched;
    }

unfoldable pub sched_preempt_point : Sched → Outcome
sched_preempt_point s =
    if s.need_resched then sched_schedule (record s { need_resched = false }) else stay s

-- A return of `sched_schedule` is a panic at the end of `thread_exit`.
abbrev pub no_return : Outcome → Outcome
no_return (switch s) = switch s
no_return (stay s) = panic
no_return panic = panic

unfoldable pub thread_exit : Sched → Outcome
thread_exit s = no_return (sched_schedule (zombie_push s.current (set_state s s.current dead)))

unfoldable pub sched_block : Sched → Outcome
sched_block s = sched_schedule (set_state s s.current blocked)

unfoldable pub sched_unblock : Ptr → Sched → Sched
sched_unblock t s =
    if is_blocked (s.threads t).state then sched_enqueue t (set_state s t ready) else s

-- What freeing a thread does to the rest of the kernel.
pub data Effect : Type 0 where
  process_unref : Ptr → Effect
  vmm_space_unref : Ptr → Effect
  free_stack : ℕ → Effect
  free_thread : Ptr → Effect

-- `free_thread`; `main_thread` reads that field of a process.
unfoldable pub thread_effects : (Ptr → Ptr) → Ptr → Thread → List Effect
thread_effects main_thread p t =
    (if not (t.process == null) && main_thread t.process == p
      then process_unref t.process ∷ []
      else [])
    ++ ((if t.space == null then [] else vmm_space_unref t.space ∷ [])
        ++ ((if t.stack_base == 0 then [] else free_stack t.stack_base ∷ [])
            ++ (free_thread p ∷ [])))

-- The loop of `reap_zombies` from `z` on; its fuel bounds the number of zombies.
unfoldable pub reap_loop : (Ptr → Ptr) → ℕ → Ptr → Sched → List Effect × Sched
reap_loop main_thread zero z s = ([], s)
reap_loop main_thread (suc n) z s =
    let t = record (s.threads z) { next = null } in
    let (rest, s') =
      reap_loop main_thread n (s.threads z).next (record s { threads = update s.threads z t }) in
    if z == null then ([], s) else (thread_effects main_thread z t ++ rest, s')

unfoldable pub reap_zombies : (Ptr → Ptr) → ℕ → Sched → List Effect × Sched
reap_zombies main_thread fuel s =
    reap_loop main_thread fuel s.zombie_head (record s { zombie_head = null; zombie_tail = null })
