-- ===== src/Kernel/Channel.antt =====
-- The message channels of src/kernel/core/channel.c: a bounded ring of messages of one size, with
-- a capability in each slot, and the two queues of threads that wait. A blocking call is one
-- attempt: it ends, or its thread is put to sleep and makes a new attempt when it resumes.
pub mod Ring
pub mod Fifo
pub mod Calls
pub mod Block
mod Tests
use exyde.Common.{
  copy_bytes, bytes, bytes-copy, bytes-copy_other, ℕ, zero, suc, ◌+◌, ◌-◌, ◌*◌, ◌%◌, ◌^◌, ◌≡◌, Bool,
  true, false, not, ◌&&◌, ◌||◌, List, [], ◌∷◌, Option, some, none, ◌==◌, if◌then◌else◌, update,
  fill,
}
use exyde.Kernel.Chain.{Ptr, null}
use exyde.Kernel.Sched.{Sched, Outcome}
use exyde.Kernel.Waitq.{Waitq, waitq_init, waitq_empty, wake_one, wait_on, Attempt, done, asleep}

-- `chan_cap_t`.
pub record Cap : Type 0 where
  pub kind : ℕ
  pub rights : ℕ
  pub object : Ptr
  pub in_use : ℕ
  pub owns : ℕ

-- `channel_t`; the two arrays are functions of the index.
pub record Channel : Type 0 where
  pub buffer : ℕ → ℕ
  pub caps : ℕ → Cap
  pub capacity : ℕ
  pub msg_size : ℕ
  pub count : ℕ
  pub head : ℕ
  pub tail : ℕ
  pub senders : Waitq
  pub receivers : Waitq

abbrev pub no_cap : Cap
no_cap = record { kind = 0; rights = 0; object = null; in_use = 0; owns = 0 }

-- The blocks of memory of a channel.
pub data Part : Type 0 where
  channel_part buffer_part caps_part : Part

-- The Booleans say which of the three allocations succeed, `garbage` is what the new buffer holds.
-- The result is the list of the blocks that are freed again, and the channel. The new buffer is
-- cleared for the bytes asked for, a product that may wrap; as the buffer is a function of the
-- offset, where it ends is not kept.
unfoldable pub channel_create : ℕ → ℕ → Bool → Bool → Bool → (ℕ → ℕ) → List Part × Option Channel
channel_create capacity msg_size got_channel got_buffer got_caps garbage =
    if (capacity == 0) || (msg_size == 0)
    then ([], none)
    else if not got_channel
    then ([], none)
    else if not got_buffer
    then (channel_part ∷ [], none)
    else if not got_caps
    then (buffer_part ∷ channel_part ∷ [], none)
    else (
      [],
      some (record {
        buffer = fill (capacity * msg_size % 2 ^ 64) 0 0 garbage;
        caps = λ i. no_cap;
        capacity = capacity;
        msg_size = msg_size;
        count = 0;
        head = 0;
        tail = 0;
        senders = waitq_init;
        receivers = waitq_init;
      }),
    )

-- The blocks that are freed; none is a panic, as threads still wait.
unfoldable pub channel_destroy : Channel → Option (List Part)
channel_destroy c =
    if not (waitq_empty c.senders)
    then none
    else if not (waitq_empty c.receivers)
    then none
    else some (caps_part ∷ buffer_part ∷ channel_part ∷ [])

unfoldable pub enqueue : Channel → (ℕ → ℕ) → ℕ → ℕ → Ptr → Bool → Bool → Sched → Channel × Sched
enqueue c msg_in cap_kind cap_rights cap_obj has_cap cap_owns s =
    let cap =
      if has_cap
      then (record {
        kind = cap_kind;
        rights = cap_rights;
        object = cap_obj;
        in_use = 1;
        owns = if cap_owns then 1 else 0;
      })
      else no_cap in
    let (receivers, s') = wake_one c.receivers s in
    (
      record c {
        buffer = copy_bytes c.buffer (c.tail * c.msg_size) msg_in 0 c.msg_size;
        caps = update c.caps c.tail cap;
        tail = (c.tail + 1) % c.capacity;
        count = c.count + 1;
        receivers = receivers;
      },
      s',
    )

unfoldable pub channel_commit : Channel → Sched → Channel × Sched
channel_commit c s =
    let (senders, s') = wake_one c.senders s in
    (
      record c {
        caps = update c.caps c.head no_cap;
        head = (c.head + 1) % c.capacity;
        count = c.count - 1;
        senders = senders;
      },
      s',
    )

-- Into the queue of senders, and of receivers.
abbrev pub wait_to_send : {A : Type 0} → Channel → Sched → Attempt Channel A
wait_to_send c s = let (q, o) = wait_on c.senders s in asleep (record c { senders = q }) o

abbrev pub wait_to_receive : {A : Type 0} → Channel → Sched → Attempt Channel A
wait_to_receive c s = let (q, o) = wait_on c.receivers s in asleep (record c { receivers = q }) o

-- `channel_peek_try`: the base of the head slot in the buffer, and its capability.
abbrev pub channel_peek : Channel → Option (ℕ × Cap)
channel_peek c = if c.count == 0 then none else some (c.head * c.msg_size, c.caps c.head)

unfoldable pub channel_try_send : Channel → (ℕ → ℕ) → Sched → Bool × Channel × Sched
channel_try_send c msg_in s =
    let (c', s') = enqueue c msg_in 0 0 null false false s in
    if c.count == c.capacity then (false, c, s) else (true, c', s')

unfoldable pub channel_send_cap :
    Channel → (ℕ → ℕ) → ℕ → ℕ → Ptr → Bool → Bool → Sched → Attempt Channel ℕ
channel_send_cap c msg_in cap_kind cap_rights cap_obj has_cap cap_owns s =
    let (c', s') = enqueue c msg_in cap_kind cap_rights cap_obj has_cap cap_owns s in
    if c.count == c.capacity then wait_to_send c s else done 0 c' s'

unfoldable pub channel_send : Channel → (ℕ → ℕ) → Sched → Attempt Channel Bool
channel_send c msg_in s =
    let (c', s') = enqueue c msg_in 0 0 null false false s in
    if c.count == c.capacity then wait_to_send c s else done true c' s'

-- `peek_copy` of the head slot.
abbrev pub peek_copy : Channel → (ℕ → ℕ) → (ℕ → ℕ)
peek_copy c msg_out = copy_bytes msg_out 0 c.buffer (c.head * c.msg_size) c.msg_size

-- The result and the caller's buffer, after a receive that refuses a capability.
abbrev pub receive_plain : Channel → (ℕ → ℕ) → Sched → (Bool × (ℕ → ℕ)) × Channel × Sched
receive_plain c msg_out s =
    let (c', s') = channel_commit c s in
    if not ((c.caps c.head).in_use == 0)
    then ((false, msg_out), c, s)
    else ((true, peek_copy c msg_out), c', s')

unfoldable pub channel_try_recv : Channel → (ℕ → ℕ) → Sched → (Bool × (ℕ → ℕ)) × Channel × Sched
channel_try_recv c msg_out s =
    if c.count == 0 then ((false, msg_out), c, s) else receive_plain c msg_out s

unfoldable pub channel_recv : Channel → (ℕ → ℕ) → Sched → Attempt Channel (Bool × (ℕ → ℕ))
channel_recv c msg_out s =
    let (r, c', s') = receive_plain c msg_out s in
    if c.count == 0 then wait_to_receive c s else done r c' s'

-- The out parameters of a receive with a capability.
pub record CapOut : Type 0 where
  pub msg : ℕ → ℕ
  pub kind : ℕ
  pub rights : ℕ
  pub object : Ptr
  pub has_cap : Bool
  pub owns : Bool

abbrev pub receive_cap : Channel → CapOut → CapOut
receive_cap c out =
    let cs = c.caps c.head in
    if not (cs.in_use == 0)
    then record {
      msg = peek_copy c out.msg;
      kind = cs.kind;
      rights = cs.rights;
      object = cs.object;
      has_cap = true;
      owns = not (cs.owns == 0);
    }
    else record out { msg = peek_copy c out.msg; has_cap = false; owns = false }

-- None is EAGAIN.
unfoldable pub channel_try_recv_cap : Channel → CapOut → Sched → Option CapOut × Channel × Sched
channel_try_recv_cap c out s =
    let (c', s') = channel_commit c s in
    if c.count == 0 then (none, c, s) else (some (receive_cap c out), c', s')

unfoldable pub channel_recv_cap : Channel → CapOut → Sched → Attempt Channel CapOut
channel_recv_cap c out s =
    let (c', s') = channel_commit c s in
    if c.count == 0 then wait_to_receive c s else done (receive_cap c out) c' s'
