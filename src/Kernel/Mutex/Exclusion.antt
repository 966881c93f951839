-- ===== src/Kernel/Mutex/Exclusion.antt =====
-- Mutual exclusion, over every interleaving of attempts and unlocks.
use exyde.Common.{
  ◌≡◌, refl, ◌∙◌, Bool, List, [], ◌∷◌, ◌++◌, Option, some, none, ◌==◌, if◌then◌else◌, Bool-cases,
  inl, inr,
}
use exyde.Kernel.Chain.{Ptr}
use exyde.Kernel.Sched.{Sched}
use exyde.Kernel.Waitq.{Attempt, done, asleep}
use exyde.Kernel.Mutex.{Mutex, mutex_lock, mutex_trylock, mutex_unlock}

-- A step of the current thread of a state of the scheduler.
pub data MutexOp : Type 0 where
  lock : Sched → MutexOp
  try_lock : Sched → MutexOp
  unlock : Sched → MutexOp

-- What happened to the lock, and to which thread.
pub data Event : Type 0 where
  acquired : Ptr → Event
  released : Ptr → Event

abbrev locked_by : Sched → Attempt Mutex Bool → List Event × Mutex
locked_by s (done a m s') = (acquired s.current ∷ [], m)
locked_by s (asleep m o) = ([], m)

abbrev tried_by : Sched → Bool × Mutex → List Event × Mutex
tried_by s (ok, m) = (if ok then acquired s.current ∷ [] else [], m)

-- A panic is the end of the run: the mutex is no longer used.
abbrev unlocked_by : Sched → Mutex → Option (Mutex × Sched) → List Event × Mutex
unlocked_by s m none = ([], m)
unlocked_by s m (some (m', s')) = (released s.current ∷ [], m')

abbrev pub step : MutexOp → Mutex → List Event × Mutex
step (lock s) m = locked_by s (mutex_lock m s)
step (try_lock s) m = tried_by s (mutex_trylock m s)
step (unlock s) m = unlocked_by s m (mutex_unlock m s)

unfoldable pub run : List MutexOp → Mutex → List Event × Mutex
run [] m = ([], m)
run (op ∷ ops) m = let (now, m₁) = step op m in let (later, m₂) = run ops m₁ in (now ++ later, m₂)

-- The thread that holds the lock.
abbrev pub holder : Mutex → Option Ptr
holder m = if m.locked then some m.owner else none

-- The log of a lock that at most one thread holds: it is acquired only when nobody holds it, and
-- released only by the thread that does. None for any other log.
abbrev pub replay : Option Ptr → List Event → Option (Option Ptr)
replay h [] = some h
replay none (acquired t ∷ es) = replay (some t) es
replay (some h) (acquired t ∷ es) = none
replay none (released t ∷ es) = none
replay (some h) (released t ∷ es) = if h == t then replay none es else none

step-replay :
    (op : MutexOp) (m : Mutex) (later : List Event)
    → replay (holder m) ((step op m).0 ++ later) ≡ replay (holder (step op m).1) later
unfolding mutex_lock mutex_trylock mutex_unlock
step-replay (lock s) m later = elim (Bool-cases m.locked) [ inl l ↦ rw l refl | inr l ↦ rw l refl ]
step-replay (try_lock s) m later = elim (Bool-cases m.locked) [
  | inl l ↦ rw l refl
  | inr l ↦ rw l refl
]
step-replay (unlock s) m later = elim (Bool-cases m.locked) [
  | inl l ↦ elim (Bool-cases (m.owner == s.current)) [
    | inl o ↦ rw (l, o) (rw o refl)
    | inr o ↦ rw (l, o) refl
  ]
  | inr l ↦ rw l refl
]

-- Over any interleaving of lock attempts and unlocks of any threads, the log of the acquisitions and
-- releases is one of a lock that at most one thread holds, and it ends with the holder at the end.
pub run-replay :
    (ops : List MutexOp) (m : Mutex)
    → let (log, m') = run ops m in replay (holder m) log ≡ some (holder m')
unfolding run
run-replay [] m = refl
run-replay (op ∷ ops) m = step-replay op m (run ops (step op m).1).0 ∙ run-replay ops (step op m).1
