-- ===== src/Kernel/Semaphore/Count.antt =====
-- What a semaphore counts, over every interleaving of attempts and posts.
use exyde.Common.{
  ℕ, ◌+◌, ◌^◌, ◌<◌, ◌≡◌, refl, Bool, false, List, [], ◌∷◌, ◌++◌, arith, if◌then◌else◌, Bool-cases,
  inl, inr,
}
use exyde.Kernel.Chain.{Ptr}
use exyde.Kernel.Sched.{Sched}
use exyde.Kernel.Sched.Ready.{IsScheduled}
use exyde.Kernel.Sched.Switch.{Switched}
use exyde.Kernel.Waitq.{Attempt, done, asleep, Asleep}
use exyde.Kernel.Waitq.Fifo.{Waits, wait_on-Waits, wake_one-Waits, woken, still_waiting}
use exyde.Kernel.Semaphore.{Semaphore, is_positive, sem_wait, sem_post, sem_trywait}

-- A step of some thread, with the state of the scheduler at that moment.
pub data SemOp : Type 0 where
  wait : Sched → SemOp
  try_wait : Sched → SemOp
  post : Sched → SemOp

-- Whether a unit was taken, and the semaphore after an attempt.
abbrev pub attempted : Attempt Semaphore Bool → Bool × Semaphore
attempted (done a m s) = (a, m)
attempted (asleep m o) = (false, m)

abbrev pub step : SemOp → Semaphore → Bool × Semaphore
step (wait s) m = attempted (sem_wait m s)
step (try_wait s) m = sem_trywait m
step (post s) m = (false, (sem_post m s).0)

unfoldable pub run : List SemOp → Semaphore → Semaphore
run [] m = m
run (op ∷ ops) m = run ops (step op m).1

-- The units taken by the steps, and the units posted.
unfoldable pub taken : List SemOp → Semaphore → ℕ
taken [] m = 0
taken (op ∷ ops) m = (if (step op m).0 then 1 else 0) + taken ops (step op m).1

abbrev pub posts : List SemOp → ℕ
posts [] = 0
posts (post s ∷ ops) = posts ops + 1
posts (wait s ∷ ops) = posts ops
posts (try_wait s ∷ ops) = posts ops

abbrev pub posted : SemOp → ℕ
posted (post s) = 1
posted (wait s) = 0
posted (try_wait s) = 0

step-count :
    (op : SemOp) (m : Semaphore)
    → m.count + posted op < 2 ^ 31
    → (step op m).1.count + (if (step op m).0 then 1 else 0) ≡ m.count + posted op
unfolding sem_wait sem_trywait sem_post
step-count (wait s) m small = elim (Bool-cases (is_positive m.count)) [
  | inl p ↦ rw p (ground arith)
  | inr z ↦ rw z (ground arith)
]
step-count (try_wait s) m small = elim (Bool-cases (is_positive m.count)) [
  | inl p ↦ rw p (ground arith)
  | inr z ↦ rw z (ground arith)
]
step-count (post s) m small = ground arith

posts_cons : (op : SemOp) (ops : List SemOp) → posts (op ∷ ops) ≡ posts ops + posted op
posts_cons (wait s) ops = omega arith
posts_cons (try_wait s) ops = omega arith
posts_cons (post s) ops = refl

-- Over any interleaving of steps of any threads, while the count and the posts stay below 2 ^ 31,
-- the count that is left and the units taken are together the count at the start and the posts.
pub run-count :
    (ops : List SemOp) (m : Semaphore)
    → m.count + posts ops < 2 ^ 31
    → (run ops m).count + taken ops m ≡ m.count + posts ops
unfolding run taken
run-count [] m small = omega arith
run-count (op ∷ ops) m small =
    let e = step-count op m (omega (arith, posts_cons op ops)) in
    let rest = run-count ops (step op m).1 (omega (arith, e, posts_cons op ops)) in
    omega (arith, e, rest, posts_cons op ops)

module _ (m : Semaphore) (s : Sched) (ts rq zs : List Ptr) where
  -- Where the scheduler's invariant holds with a thread ready and no unit is left, a wait puts the
  -- caller to sleep behind the waiting threads, and the first ready thread resumes.
  pub wait-Asleep :
      (x : Ptr)
      → m.count ≡ 0
      → Waits m.waiters s ts
      → IsScheduled s (x ∷ rq) zs
      → Asleep
          (λ m' o.
            (m'.count ≡ 0)
            × Switched
                (λ s'.
                  (s'.current ≡ x)
                  × IsScheduled s' rq zs
                  × Waits m'.waiters s' (ts ++ (s.current ∷ [])))
                o)
          (sem_wait m s)
  unfolding sem_wait
  wait-Asleep x e w i =
      let z : is_positive m.count ≡ false = ground arith in
      rw z (e, wait_on-Waits m.waiters s ts x rq zs w i)

  -- Where the scheduler's invariant holds, a post adds a unit, while the count stays below 2 ^ 31, and
  -- makes the first waiting thread ready.
  pub post-Waits :
      m.count + 1 < 2 ^ 31
      → Waits m.waiters s ts
      → IsScheduled s rq zs
      → let (m', s') = sem_post m s in
        (m'.count ≡ m.count + 1)
        × Waits m'.waiters s' (still_waiting ts)
        × IsScheduled s' (rq ++ woken ts) zs
  unfolding sem_post
  post-Waits small w i =
      let (w', i') = wake_one-Waits m.waiters s ts rq zs w i in (ground arith, w', i')
