-- ===== src/Kernel/Channel/Tests.antt =====
-- A channel of two slots of three bytes: empty, with one message, and full.
use exyde.Common.{ℕ, ◌≡◌, refl, true, false, [], ◌∷◌, some, arith, update}
use exyde.Kernel.Chain.{null}
use exyde.Kernel.Sched.Ready.{IsScheduled}
use exyde.Kernel.Sched.Tests.{pair, pair-IsScheduled}
use exyde.Kernel.Waitq.{waitq_init}
use exyde.Kernel.Waitq.{Done}
use exyde.Kernel.Waitq.Fifo.{Waits}
use exyde.Kernel.Channel.{
  Cap, Channel, no_cap, channel_create, enqueue, channel_send_cap, channel_recv_cap, CapOut,
  buffer_part, channel_part,
}
use exyde.Kernel.Channel.Fifo.{Holds, sent_cap, enqueue-Holds}
use exyde.Kernel.Channel.Calls.{cap_result, Created, create-Created}
use exyde.Kernel.Channel.Block.{send_cap-Done, recv_cap-Done}

abbrev two_slots : Channel
two_slots = record {
  buffer = λ i. 0;
  caps = λ i. no_cap;
  capacity = 2;
  msg_size = 3;
  count = 0;
  head = 1;
  tail = 1;
  senders = waitq_init;
  receivers = waitq_init;
}

abbrev text : ℕ → ℕ
text i = update (update (update (λ j. 0) 0 104) 1 105) 2 33 i

two_slots-Holds : Holds two_slots []
two_slots-Holds = record {
  count = refl;
  fits = omega arith;
  head = omega arith;
  tail = refl;
  window = tt;
}

nobody-Waits : Waits waitq_init pair []
nobody-Waits = record {
  queue = record { chain = refl; at_end = refl; distinct = tt };
  all_blocked = λ p h. ground arith;
}

-- One message in slot 1, with a capability that its receiver will own.
abbrev sealed : Cap
sealed = sent_cap 2 9 500 true true

abbrev with_cap : Channel
with_cap = (enqueue two_slots text 2 9 500 true true pair).0

with_cap-Holds : Holds with_cap ((104 ∷ 105 ∷ 33 ∷ [], sealed) ∷ [])
with_cap-Holds =
    enqueue-Holds two_slots text 2 9 500 true true pair [] two_slots-Holds (omega arith)

create-Created_example :
    Created 4 8 false
      (buffer_part ∷ channel_part ∷ [])
      (channel_create 4 8 true true false (λ i. 90))
create-Created_example = create-Created 4 8 true true false (λ i. 90)

abbrev nothing_yet : CapOut
nothing_yet = record {
  msg = λ i. 7;
  kind = 0;
  rights = 0;
  object = null;
  has_cap = false;
  owns = false;
}

abbrev full : Channel
full = (enqueue with_cap text 0 0 null false false pair).0

full-Holds : Holds full ((104 ∷ 105 ∷ 33 ∷ [], sealed) ∷ (104 ∷ 105 ∷ 33 ∷ [], no_cap) ∷ [])
unfolding enqueue
full-Holds =
    enqueue-Holds with_cap text 0 0 null false false pair ((104 ∷ 105 ∷ 33 ∷ [], sealed) ∷ [])
      with_cap-Holds (omega arith)

send_cap-Done_example :
    Done
      (λ code c' s'.
        (code ≡ 0)
        × Holds c' ((104 ∷ 105 ∷ 33 ∷ [], sealed) ∷ [])
        × Waits c'.receivers s' []
        × IsScheduled s' (2 ∷ 3 ∷ []) [])
      (channel_send_cap two_slots text 2 9 500 true true pair)
send_cap-Done_example =
    send_cap-Done two_slots pair [] [] (2 ∷ 3 ∷ []) [] text 2 9 500 true true two_slots-Holds
      (omega arith) nobody-Waits pair-IsScheduled

recv_cap-Done_example :
    Done
      (λ o c' s'.
        (cap_result with_cap.msg_size o ≡ (104 ∷ 105 ∷ 33 ∷ [], some (2, 9, 500, true)))
        × Holds c' []
        × Waits c'.senders s' []
        × IsScheduled s' (2 ∷ 3 ∷ []) [])
      (channel_recv_cap with_cap nothing_yet pair)
unfolding enqueue
recv_cap-Done_example =
    recv_cap-Done with_cap pair [] [] (2 ∷ 3 ∷ []) [] nothing_yet (104 ∷ 105 ∷ 33 ∷ []) sealed
      with_cap-Holds nobody-Waits pair-IsScheduled
