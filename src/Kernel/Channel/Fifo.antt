-- ===== src/Kernel/Channel/Fifo.antt =====
-- A channel refines a bounded FIFO of messages, each with its capability.
use exyde.Common.{
  bytes, bytes-copy, bytes-copy_other, ℕ, suc, ◌+◌, ◌*◌, ◌%◌, ◌≤◌, ◌<◌, ◌≡◌, ◌≢◌, refl, ap, ap₂,
  ◌∙◌, sym, Bool, true, false, List, [], ◌∷◌, ◌++◌, arith, ltb, leb, ◌==◌, if◌then◌else◌, length,
  length-append, Bool-cases, inl, inr,
}
use native.Mathlib.Nat.{mod-lt, mul-le-mul_right}
use exyde.Kernel.Chain.{Ptr}
use exyde.Kernel.Sched.{Sched}
use exyde.Kernel.Channel.{Cap, Channel, no_cap, enqueue, channel_commit}
use exyde.Kernel.Channel.Ring.{wrap, wrap_step, Window, Window-frame, Window-snoc, Window-shift}

-- What a slot carries: the bytes and the capability.
abbrev pub Message : Type 0
Message = List ℕ × Cap

abbrev pub slot : Channel → ℕ → Message
slot c i = (bytes c.buffer (i * c.msg_size) c.msg_size, c.caps i)

-- The channel holds the messages `xs`, the first one to be received first.
pub record Holds (c : Channel) (xs : List Message) : Type 0 where
  pub count : c.count ≡ length xs
  pub fits : length xs ≤ c.capacity
  pub head : c.head < c.capacity
  pub tail : c.tail ≡ wrap c.capacity (c.head + length xs)
  pub window : Window c.capacity (slot c) c.head xs

-- The capability that a send stores.
abbrev pub sent_cap : ℕ → ℕ → Ptr → Bool → Bool → Cap
sent_cap kind rights object has_cap owns =
    if has_cap
    then record {
      kind = kind;
      rights = rights;
      object = object;
      in_use = 1;
      owns = if owns then 1 else 0;
    }
    else no_cap

-- The bytes of two different slots do not overlap.
apart :
    (m i j : ℕ) → i ≢ j → (if leb (i * m + m) (j * m) then true else leb (j * m + m) (i * m)) ≡ true
apart m i j ne = elim (Bool-cases (ltb i j)) [
  | inl lt ↦ let le : (i + 1) * m ≤ j * m = mul-le-mul_right m (ground arith) in ground arith
  | inr ge ↦ let le : (j + 1) * m ≤ i * m = mul-le-mul_right m (ground arith) in ground arith
]

module _ (c : Channel) (msg_in : ℕ → ℕ) (kind rights : ℕ) (object : Ptr) (has_cap owns : Bool)
    (s : Sched) where
  abbrev after : Channel
  after = (enqueue c msg_in kind rights object has_cap owns s).0

  slot-enqueue : (i : ℕ) → i ≢ c.tail → slot after i ≡ slot c i
  unfolding enqueue
  slot-enqueue i ne =
      ap₂ (λ b k. (b, k))
        (bytes-copy_other c.buffer (c.tail * c.msg_size) msg_in 0 c.msg_size (i * c.msg_size)
          c.msg_size (apart c.msg_size i c.tail ne))
        (let f : (c.tail == i) ≡ false = ground arith in rw f refl)

  slot-enqueue_at :
      slot after c.tail ≡ (bytes msg_in 0 c.msg_size, sent_cap kind rights object has_cap owns)
  unfolding enqueue
  slot-enqueue_at =
      ap₂ (λ b k. (b, k)) (bytes-copy c.buffer (c.tail * c.msg_size) msg_in 0 c.msg_size)
        (let f : (c.tail == c.tail) ≡ true = ground arith in rw f refl)

  -- With room, the message is appended.
  pub enqueue-Holds :
      (xs : List Message)
      → Holds c xs
      → length xs < c.capacity
      → Holds after
          (xs ++ ((bytes msg_in 0 c.msg_size, sent_cap kind rights object has_cap owns) ∷ []))
  unfolding enqueue
  enqueue-Holds xs h room =
      let x : Message = (bytes msg_in 0 c.msg_size, sent_cap kind rights object has_cap owns) in
      let n : length (xs ++ (x ∷ [])) ≡ length xs + 1 = length-append xs (x ∷ []) in
      record {
        count = omega (arith, h.count, n);
        fits = omega (arith, n);
        head = h.head;
        tail =
            wrap_step c.capacity c.tail (ground (arith, h.tail, h.head))
            ∙ ground (arith, h.tail, h.head, n);
        window =
            Window-snoc c.capacity (slot after) xs c.head x
              (Window-frame c.capacity (slot c) (slot after) xs c.head
                (λ j le lt. slot-enqueue (wrap c.capacity j) (λ e. ground (arith, h.tail, h.head)))
                h.window)
              (ap (slot after) (sym h.tail) ∙ slot-enqueue_at);
      }

-- The first message is consumed.
module _ (c : Channel) (s : Sched) where
  slot-commit : (i : ℕ) → i ≢ c.head → slot (channel_commit c s).0 i ≡ slot c i
  unfolding channel_commit
  slot-commit i ne = let f : (c.head == i) ≡ false = ground arith in rw f refl

  -- The rest of the window, from the new head on.
  Window-commit :
      (sl : ℕ → Message) (xs : List Message)
      → c.head < c.capacity
      → length xs < c.capacity
      → Window c.capacity sl (suc c.head) xs
      → Window c.capacity sl ((c.head + 1) % c.capacity) xs
  Window-commit sl xs lt room w = elim (Bool-cases (c.head + 1 == c.capacity)) [
    | inl e ↦
        let z : wrap c.capacity (c.head + 1) ≡ 0 = ground arith in
        rw (wrap_step c.capacity c.head lt, z)
          (Window-shift c.capacity sl xs 0 (omega arith) (
            coe 0 1
              (k.
                Window c.capacity sl ((let f : suc c.head ≡ c.capacity + 0 = ground arith in f) k)
                  xs)
              w))
    | inr e ↦
        let z : wrap c.capacity (c.head + 1) ≡ suc c.head = ground arith in
        rw (wrap_step c.capacity c.head lt, z) w
  ]

  pub commit-Holds :
      (x : Message) (xs : List Message) → Holds c (x ∷ xs) → Holds (channel_commit c s).0 xs
  unfolding channel_commit
  commit-Holds x xs h = record {
    count = omega (arith, h.count);
    fits = omega (arith, h.fits);
    head = mod-lt (c.head + 1) (omega (arith, h.head));
    tail = ground (arith, h.tail, wrap_step c.capacity c.head h.head, h.fits, h.head);
    window =
        Window-frame c.capacity (slot c) (slot (channel_commit c s).0) xs
          ((c.head + 1) % c.capacity)
          (λ j le lt.
            slot-commit (wrap c.capacity j)
              (λ e. ground (arith, wrap_step c.capacity c.head h.head, h.fits, h.head)))
          (Window-commit (slot c) xs h.head (omega (arith, h.fits)) h.window.1);
  }
