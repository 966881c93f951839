-- ===== src/Kernel/Channel/Calls.antt =====
-- The calls of a channel that do not block, against the bounded FIFO.
use exyde.Common.{
  bytes, bytes-copy, ℕ, ◌+◌, ◌*◌, ◌≡◌, refl, ap, ◌∙◌, sym, Bool, true, false, not, ◌&&◌, ◌||◌, List,
  [], ◌∷◌, ◌++◌, Option, some, none, arith, ltb, ◌==◌, if◌then◌else◌, length, Bool-cases, inl, inr,
}
use exyde.Kernel.Chain.{Ptr, null}
use exyde.Kernel.Sched.{Sched}
use exyde.Kernel.Channel.{
  Cap, Channel, no_cap, channel_create, channel_try_send, channel_try_recv, channel_try_recv_cap,
  CapOut, receive_cap, Part, channel_part, buffer_part,
}
use exyde.Kernel.Channel.Ring.{wrap}
use exyde.Kernel.Channel.Fifo.{Message, slot, Holds, enqueue-Holds, commit-Holds}

-- A send to a bounded FIFO: accepted while there is room.
abbrev pub offer : ℕ → Message → List Message → Bool × List Message
offer capacity x xs = if ltb (length xs) capacity then (true, xs ++ (x ∷ [])) else (false, xs)

-- A receive from it that refuses a message with a capability.
abbrev pub take_plain : List Message → Option (List ℕ) × List Message
take_plain [] = (none, [])
take_plain ((b, cap) ∷ xs) = if cap.in_use == 0 then (some b, xs) else (none, (b, cap) ∷ xs)

-- The capability that a receiver gets: its kind, rights and object, and if it is owned.
abbrev pub granted : Cap → Option (ℕ × ℕ × Ptr × Bool)
granted cap =
    if cap.in_use == 0 then none else some (cap.kind, cap.rights, cap.object, not (cap.owns == 0))

-- A receive of the bytes and the capability.
abbrev pub take_message :
    List Message → Option (List ℕ × Option (ℕ × ℕ × Ptr × Bool)) × List Message
take_message [] = (none, [])
take_message ((b, cap) ∷ xs) = (some (b, granted cap), xs)

-- What the caller reads from its out parameters.
abbrev pub plain_result : ℕ → Bool × (ℕ → ℕ) → Option (List ℕ)
plain_result n (ok, msg) = if ok then some (bytes msg 0 n) else none

abbrev pub cap_result : ℕ → CapOut → List ℕ × Option (ℕ × ℕ × Ptr × Bool)
cap_result n o =
    (bytes o.msg 0 n, if o.has_cap then some (o.kind, o.rights, o.object, o.owns) else none)

abbrev pub try_result : ℕ → Option CapOut → Option (List ℕ × Option (ℕ × ℕ × Ptr × Bool))
try_result n none = none
try_result n (some o) = some (cap_result n o)

module _ (c : Channel) where
  pub head_slot : (x : Message) (xs : List Message) → Holds c (x ∷ xs) → slot c c.head ≡ x
  head_slot x xs h =
      let at : wrap c.capacity c.head ≡ c.head = ground (arith, h.head) in
      ap (slot c) (sym at) ∙ h.window.0

  pub not_empty : (x : Message) (xs : List Message) → Holds c (x ∷ xs) → (c.count == 0) ≡ false
  not_empty x xs h = ground (arith, h.count)

  -- A send that does not block appends the message if there is room. Else it fails and the messages
  -- stay.
  pub try_send-offer :
      (msg_in : ℕ → ℕ) (s : Sched) (xs : List Message)
      → Holds c xs
      → let (ok, c', s') = channel_try_send c msg_in s in
        let (ok', ys) = offer c.capacity (bytes msg_in 0 c.msg_size, no_cap) xs in
        (ok ≡ ok') × Holds c' ys
  unfolding channel_try_send
  try_send-offer msg_in s xs h = elim (Bool-cases (ltb (length xs) c.capacity)) [
    | inl room ↦
        let e : (c.count == c.capacity) ≡ false = ground (arith, h.count) in
        rw (e, room) (refl, enqueue-Holds c msg_in 0 0 null false false s xs h (ground arith))
    | inr full ↦
        let e : (c.count == c.capacity) ≡ true = ground (arith, h.count, h.fits) in
        rw (e, full) (refl, h)
  ]

  -- A plain receive that does not block takes the first message. On an empty channel, and on a
  -- first message that carries a capability, it fails and the messages stay.
  pub try_recv-take :
      (msg_out : ℕ → ℕ) (s : Sched) (xs : List Message)
      → Holds c xs
      → let (r, c', s') = channel_try_recv c msg_out s in
        let (r', ys) = take_plain xs in (plain_result c.msg_size r ≡ r') × Holds c' ys
  unfolding channel_try_recv
  try_recv-take msg_out s [] h =
      let e : (c.count == 0) ≡ true = ground (arith, h.count) in rw e (refl, h)
  try_recv-take msg_out s ((b, cap) ∷ xs) h =
      let e = not_empty (b, cap) xs h in
      let at = head_slot (b, cap) xs h in
      let u : (c.caps c.head).in_use ≡ cap.in_use = ap (λ x. x.1.in_use) at in
      elim (Bool-cases (cap.in_use == 0)) [
        | inl z ↦
            rw (e, u, z)
              (
                ap some (
                    bytes-copy msg_out 0 c.buffer (c.head * c.msg_size) c.msg_size
                    ∙ ap (λ x. x.0) at),
                commit-Holds c s (b, cap) xs h,
              )
        | inr z ↦ rw (e, u, z) (refl, h)
      ]

  pub granted-receive :
      (out : CapOut) (b : List ℕ) (cap : Cap)
      → slot c c.head ≡ (b, cap)
      → cap_result c.msg_size (receive_cap c out) ≡ (b, granted cap)
  granted-receive out b cap at =
      let copied = bytes-copy out.msg 0 c.buffer (c.head * c.msg_size) c.msg_size in
      elim (Bool-cases ((c.caps c.head).in_use == 0)) [
        | inl z ↦ rw z (ap (λ u. (u, none)) copied)
        | inr z ↦
            let cs = c.caps c.head in
            rw z (ap (λ u. (u, some (cs.kind, cs.rights, cs.object, not (cs.owns == 0)))) copied)
      ]
      ∙ ap (λ x. (x.0, granted x.1)) at

  -- A receive with a capability that does not block takes the first message and its capability, if
  -- it carries one. On an empty channel it fails and the channel stays empty.
  pub try_recv_cap-take :
      (out : CapOut) (s : Sched) (xs : List Message)
      → Holds c xs
      → let (r, c', s') = channel_try_recv_cap c out s in
        let (r', ys) = take_message xs in (try_result c.msg_size r ≡ r') × Holds c' ys
  unfolding channel_try_recv_cap
  try_recv_cap-take out s [] h =
      let e : (c.count == 0) ≡ true = ground (arith, h.count) in rw e (refl, h)
  try_recv_cap-take out s ((b, cap) ∷ xs) h = rw (not_empty (b, cap) xs h) (
    ap some (granted-receive out b cap (head_slot (b, cap) xs h)),
    commit-Holds c s (b, cap) xs h,
  )

-- The blocks that a failed creation has obtained, the last one first.
abbrev pub obtained : Bool → Bool → List Part
obtained got_channel got_buffer =
    if not got_channel
    then []
    else if not got_buffer
    then channel_part ∷ []
    else buffer_part ∷ channel_part ∷ []

-- Either an empty channel of the size asked for and nothing freed, or no channel.
abbrev pub Created : ℕ → ℕ → Bool → List Part → List Part × Option Channel → Type 0
Created capacity msg_size ok held (freed, some c) =
    (ok ≡ true) × (freed ≡ []) × Holds c [] × (c.capacity ≡ capacity) × (c.msg_size ≡ msg_size)
Created capacity msg_size ok held (freed, none) = (ok ≡ false) × (freed ≡ held)

-- A creation succeeds if and only if the sizes are not zero and the three allocations succeed, and
-- a failed one has freed what it had obtained.
pub create-Created :
    (capacity msg_size : ℕ) (got_channel got_buffer got_caps : Bool) (garbage : ℕ → ℕ)
    → let sized = not ((capacity == 0) || (msg_size == 0)) in
      Created capacity msg_size
        (sized && got_channel && got_buffer && got_caps)
        (if sized then obtained got_channel got_buffer else [])
        (channel_create capacity msg_size got_channel got_buffer got_caps garbage)
unfolding channel_create
create-Created capacity msg_size got_channel got_buffer got_caps garbage =
    elim (Bool-cases ((capacity == 0) || (msg_size == 0))) [
      | inl z ↦ rw z (refl, refl)
      | inr z ↦ elim (Bool-cases got_channel) [
        | inr f ↦ rw (z, f) (refl, refl)
        | inl t ↦ elim (Bool-cases got_buffer) [
          | inr f ↦ rw (z, t, f) (refl, refl)
          | inl u ↦ elim (Bool-cases got_caps) [
            | inr f ↦ rw (z, t, u, f) (refl, refl)
            | inl v ↦
                let e : wrap capacity (0 + 0) ≡ 0 = ground arith in
                rw (z, t, u, v)
                  (
                    refl,
                    refl,
                    record {
                      count = refl;
                      fits = omega arith;
                      head = ground arith;
                      tail = sym e;
                      window = tt;
                    },
                    refl,
                    refl,
                  )
          ]
        ]
      ]
    ]
