-- ===== src/Kernel/Mutex/Condition.antt =====
-- A broadcast on a condition variable wakes every waiting thread.
use exyde.Common.{
  ℕ, zero, suc, ◌≤◌, ◌≡◌, ◌≢◌, refl, ◌∙◌, sym, false, List, [], ◌∷◌, ◌++◌, arith, ◌==◌, length,
  append_assoc, append-nil,
}
use exyde.Kernel.Chain.{Ptr, null}
use exyde.Kernel.Sched.{Sched}
use exyde.Kernel.Sched.Ready.{IsScheduled}
use exyde.Kernel.Waitq.{Waitq, waitq_pop, wake_one}
use exyde.Kernel.Waitq.Fifo.{Waits, wake_one-Waits, pop-null, pop-head}
use exyde.Kernel.Mutex.{cond_broadcast}

broadcast-suc :
    (n : ℕ) (c : Waitq) (s : Sched)
    → c.head ≢ null
    → cond_broadcast (suc n) c s ≡ (let (c', s') = wake_one c s in cond_broadcast n c' s')
unfolding cond_broadcast wake_one
broadcast-suc n c s ne =
    let z : ((waitq_pop c s).0 == null) ≡ false = ground (arith, pop-head c s ne) in rw z refl

-- Where the scheduler's invariant holds and the fuel is enough for the waiting threads, a broadcast makes each of them ready, in the order in which
-- they wait, and the condition variable ends with no waiting thread.
pub broadcast-Waits :
    (n : ℕ) (c : Waitq) (s : Sched) (ts rq zs : List Ptr)
    → length ts ≤ n
    → Waits c s ts
    → IsScheduled s rq zs
    → let (c', s') = cond_broadcast n c s in Waits c' s' [] × IsScheduled s' (rq ++ ts) zs
unfolding cond_broadcast
broadcast-Waits zero c s [] rq zs le w i = rw (append-nil rq) (w, i)
broadcast-Waits zero c s (t ∷ ts) rq zs le w i = absurd (omega arith)
broadcast-Waits (suc n) c s [] rq zs le w i = rw (pop-null c s w.queue.chain, append-nil rq) (w, i)
broadcast-Waits (suc n) c s (t ∷ ts) rq zs le w i =
    let (w', i') = wake_one-Waits c s (t ∷ ts) rq zs w i in
    let (c', s') = wake_one c s in
    let e = broadcast-suc n c s (λ z. w.queue.chain.1 (sym w.queue.chain.0 ∙ z)) in
    let (w'', i'') = broadcast-Waits n c' s' ts (rq ++ (t ∷ [])) zs (omega arith) w' i' in
    let r = cond_broadcast n c' s' in
    let at = append_assoc rq (t ∷ []) ts in
    coe 1 0 (k. Waits (e k).0 (e k).1 [] × IsScheduled (e k).1 (rq ++ (t ∷ ts)) zs)
      (w'', coe 0 1 (k. IsScheduled r.1 (at k) zs) i'')
