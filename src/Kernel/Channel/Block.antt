-- ===== src/Kernel/Channel/Block.antt =====
-- The calls of a channel that block: an attempt ends with the FIFO's result, or its thread sleeps.
use exyde.Common.{
  bytes, ℕ, ◌<◌, ◌≡◌, refl, Bool, true, false, List, [], ◌∷◌, ◌++◌, arith, ◌==◌, length,
}
use exyde.Kernel.Chain.{Ptr}
use exyde.Kernel.Sched.{Sched}
use exyde.Kernel.Sched.Ready.{IsScheduled}
use exyde.Kernel.Sched.Switch.{Switched}
use exyde.Kernel.Waitq.{Done, Asleep}
use exyde.Kernel.Waitq.Fifo.{Waits, woken, still_waiting, wait_on-Waits, wake_one-Waits}
use exyde.Kernel.Channel.{
  Cap, Channel, enqueue, channel_commit, channel_send_cap, channel_recv_cap, CapOut,
}
use exyde.Kernel.Channel.Fifo.{Message, Holds, sent_cap, enqueue-Holds, commit-Holds}
use exyde.Kernel.Channel.Calls.{granted, cap_result, head_slot, not_empty, granted-receive}

module _ (c : Channel) (s : Sched) (xs : List Message) (ts rq zs : List Ptr) where
  -- Where the scheduler's invariant holds and the channel has room, a send ends with 0, appends the
  -- message with its capability, makes the first waiting receiver ready, and keeps the invariant.
  pub send_cap-Done :
      (msg_in : ℕ → ℕ) (kind rights : ℕ) (object : Ptr) (has_cap owns : Bool)
      → Holds c xs
      → length xs < c.capacity
      → Waits c.receivers s ts
      → IsScheduled s rq zs
      → Done
          (λ code c' s'.
            (code ≡ 0)
            × Holds c'
                (xs ++ ((bytes msg_in 0 c.msg_size, sent_cap kind rights object has_cap owns) ∷ []))
            × Waits c'.receivers s' (still_waiting ts)
            × IsScheduled s' (rq ++ woken ts) zs)
          (channel_send_cap c msg_in kind rights object has_cap owns s)
  unfolding channel_send_cap enqueue
  send_cap-Done msg_in kind rights object has_cap owns h room w i =
      let e : (c.count == c.capacity) ≡ false = ground (arith, h.count) in
      let (w', i') = wake_one-Waits c.receivers s ts rq zs w i in
      rw e (refl, enqueue-Holds c msg_in kind rights object has_cap owns s xs h room, w', i')

  -- Where the scheduler's invariant holds with a thread ready and the channel is full, the caller
  -- sleeps behind the waiting senders, the messages stay, and the first ready thread resumes with
  -- the invariant kept.
  pub send_cap-Asleep :
      (msg_in : ℕ → ℕ) (kind rights : ℕ) (object : Ptr) (has_cap owns : Bool) (x : Ptr)
      → Holds c xs
      → length xs ≡ c.capacity
      → Waits c.senders s ts
      → IsScheduled s (x ∷ rq) zs
      → Asleep
          (λ c' o.
            Holds c' xs
            × Switched
                (λ s'.
                  (s'.current ≡ x)
                  × IsScheduled s' rq zs
                  × Waits c'.senders s' (ts ++ (s.current ∷ [])))
                o)
          (channel_send_cap c msg_in kind rights object has_cap owns s)
  unfolding channel_send_cap
  send_cap-Asleep msg_in kind rights object has_cap owns x h full w i =
      let e : (c.count == c.capacity) ≡ true = ground (arith, h.count) in
      rw e (
        record { count = h.count; fits = h.fits; head = h.head; tail = h.tail; window = h.window },
        wait_on-Waits c.senders s ts x rq zs w i,
      )

  -- Where the scheduler's invariant holds and a message is in the channel, a receive takes the first
  -- one with its capability, makes the first waiting sender ready, and keeps the invariant.
  pub recv_cap-Done :
      (out : CapOut) (b : List ℕ) (cap : Cap)
      → Holds c ((b, cap) ∷ xs)
      → Waits c.senders s ts
      → IsScheduled s rq zs
      → Done
          (λ o c' s'.
            (cap_result c.msg_size o ≡ (b, granted cap))
            × Holds c' xs
            × Waits c'.senders s' (still_waiting ts)
            × IsScheduled s' (rq ++ woken ts) zs)
          (channel_recv_cap c out s)
  unfolding channel_recv_cap channel_commit
  recv_cap-Done out b cap h w i =
      let (w', i') = wake_one-Waits c.senders s ts rq zs w i in
      rw (not_empty c (b, cap) xs h) (
        granted-receive c out b cap (head_slot c (b, cap) xs h),
        commit-Holds c s (b, cap) xs h,
        w',
        i',
      )

  -- Where the scheduler's invariant holds with a thread ready and the channel is empty, the caller
  -- sleeps behind the waiting receivers, and the first ready thread resumes with the invariant kept.
  pub recv_cap-Asleep :
      (out : CapOut) (x : Ptr)
      → Holds c []
      → Waits c.receivers s ts
      → IsScheduled s (x ∷ rq) zs
      → Asleep
          (λ c' o.
            Holds c' []
            × Switched
                (λ s'.
                  (s'.current ≡ x)
                  × IsScheduled s' rq zs
                  × Waits c'.receivers s' (ts ++ (s.current ∷ [])))
                o)
          (channel_recv_cap c out s)
  unfolding channel_recv_cap
  recv_cap-Asleep out x h w i =
      let e : (c.count == 0) ≡ true = ground (arith, h.count) in
      rw e (
        record { count = h.count; fits = h.fits; head = h.head; tail = h.tail; window = h.window },
        wait_on-Waits c.receivers s ts x rq zs w i,
      )
