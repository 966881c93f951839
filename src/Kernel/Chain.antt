-- ===== src/Kernel/Chain.antt =====
-- Intrusive FIFO queues: a head and a tail pointer, and a link in each node. The ready queue, the
-- zombie list and every wait queue of the kernel are such a queue over the store of threads.
use exyde.Common.{
  ℕ, ◌≡◌, ◌≢◌, refl, ap, ◌∙◌, sym, Bool, true, false, ◌||◌, List, [], ◌∷◌, ◌++◌, arith, ◌==◌,
  if◌then◌else◌,
}

-- The address of a node; 0 is NULL.
abbrev pub Ptr : Type 0
Ptr = ℕ

abbrev pub null : Ptr
null = 0

abbrev pub has : Ptr → List Ptr → Bool
has q [] = false
has q (x ∷ xs) = (x == q) || has q xs

abbrev pub Distinct : List Ptr → Type 0
Distinct [] = Unit
Distinct (x ∷ xs) = (has x xs ≡ false) × Distinct xs

-- The last element, NULL for none.
abbrev pub last : List Ptr → Ptr
last [] = null
last (x ∷ []) = x
last (x ∷ y ∷ xs) = last (y ∷ xs)

-- From `p` the links lead through the nodes `xs` to NULL.
abbrev pub Chain : (Ptr → Ptr) → Ptr → List Ptr → Type 0
Chain next p [] = p ≡ null
Chain next p (x ∷ xs) = (p ≡ x) × (x ≢ null) × Chain next (next x) xs

-- The queue with this head and tail holds the nodes `xs`, in order.
pub record IsQueue (next : Ptr → Ptr) (head tail : Ptr) (xs : List Ptr) : Type 0 where
  pub chain : Chain next head xs
  pub at_end : tail ≡ last xs
  pub distinct : Distinct xs

pub has-append : (q : Ptr) (xs ys : List Ptr) → has q (xs ++ ys) ≡ (has q xs || has q ys)
has-append q [] ys = refl
has-append q (x ∷ xs) ys = ground (arith, has-append q xs ys)

pub has-last : (x : Ptr) (xs : List Ptr) → has (last (x ∷ xs)) (x ∷ xs) ≡ true
has-last x [] = ground arith
has-last x (y ∷ xs) = ground (arith, has-last y xs)

pub last-snoc : (xs : List Ptr) (p : Ptr) → last (xs ++ (p ∷ [])) ≡ p
last-snoc [] p = refl
last-snoc (x ∷ []) p = refl
last-snoc (x ∷ y ∷ xs) p = last-snoc (y ∷ xs) p

pub Distinct-snoc :
    (xs : List Ptr) (p : Ptr) → Distinct xs → has p xs ≡ false → Distinct (xs ++ (p ∷ []))
Distinct-snoc [] p d out = (refl, tt)
Distinct-snoc (x ∷ xs) p d out =
    (ground (arith, has-append x xs (p ∷ [])), Distinct-snoc xs p d.1 (ground arith))

pub last_ne_null :
    (next : Ptr → Ptr) (x : Ptr) (xs : List Ptr) (p : Ptr)
    → Chain next p (x ∷ xs)
    → last (x ∷ xs) ≢ null
last_ne_null next x [] p c = c.1
last_ne_null next x (y ∷ xs) p (e, nx, c) = last_ne_null next y xs (next x) c

module _ {next next' : Ptr → Ptr} where
  -- A chain survives any change of links outside its nodes.
  pub frame :
      (xs : List Ptr) (p : Ptr)
      → Chain next p xs
      → ((q : Ptr) → has q xs ≡ true → next' q ≡ next q)
      → Chain next' p xs
  frame [] p c same = c
  frame (x ∷ xs) p (e, ne, c) same =
      (e, ne, rw (same x (ground arith)) (frame xs (next x) c (λ q h. same q (ground arith))))

  pub IsQueue-frame :
      {head tail : Ptr} {xs : List Ptr}
      → IsQueue next head tail xs
      → ((q : Ptr) → has q xs ≡ true → next' q ≡ next q)
      → IsQueue next' head tail xs
  IsQueue-frame {head} {xs} i same = record {
    chain = frame xs head i.chain same;
    at_end = i.at_end;
    distinct = i.distinct;
  }

  -- Linking the last node to `p` appends `p`.
  snoc :
      (x : Ptr) (xs : List Ptr) {h p : Ptr}
      → Chain next h (x ∷ xs)
      → Distinct (x ∷ xs)
      → p ≢ null
      → ((q : Ptr) → has q (x ∷ xs) ≡ true → q ≢ last (x ∷ xs) → next' q ≡ next q)
      → next' (last (x ∷ xs)) ≡ p
      → next' p ≡ null
      → Chain next' h ((x ∷ xs) ++ (p ∷ []))
  snoc x [] {p} c d ne same link end = (c.0, c.1, (link, ne, end))
  snoc x (y ∷ xs) {p} (e, nx, c) (out, d) ne same link end =
      let kept : next' x ≡ next x =
        same x (ground arith) (λ l. absurd (ground (arith, has-last y xs, l))) in
      (e, nx, rw kept (snoc y xs c d ne (λ q h. same q (ground arith)) link end))

-- A push: the new node's link is cleared, then the old tail is linked to it.
pub push-IsQueue :
    {next next' : Ptr → Ptr} {head tail : Ptr} (xs : List Ptr) (p : Ptr)
    → IsQueue next head tail xs
    → p ≢ null
    → has p xs ≡ false
    → ((q : Ptr) → has q xs ≡ true → q ≢ tail → next' q ≡ next q)
    → (tail ≢ null → next' tail ≡ p)
    → next' p ≡ null
    → IsQueue next' (if tail == null then p else head) p (xs ++ (p ∷ []))
push-IsQueue {tail} [] p i ne out same link end =
    let e : (tail == null) ≡ true = ground (arith, i.at_end) in
    rw e (record { chain = (refl, ne, end); at_end = refl; distinct = (refl, tt) })
push-IsQueue {next} {next' = next'} {head} {tail} (x ∷ xs) p i ne out same link end =
    let full : tail ≢ null = λ z. last_ne_null next x xs head i.chain (sym i.at_end ∙ z) in
    let e : (tail == null) ≡ false = ground arith in
    rw e (record {
      chain =
          snoc x xs i.chain i.distinct ne (λ q h l. same q h (λ t. l (t ∙ i.at_end)))
            (ap next' (sym i.at_end) ∙ link full) end;
      at_end = sym (last-snoc (x ∷ xs) p);
      distinct = Distinct-snoc (x ∷ xs) p i.distinct out;
    })

-- A pop: the head is unlinked.
pub pop-IsQueue :
    {next next' : Ptr → Ptr} {head tail : Ptr} (x : Ptr) (xs : List Ptr)
    → IsQueue next head tail (x ∷ xs)
    → ((q : Ptr) → has q xs ≡ true → next' q ≡ next q)
    → (head ≡ x) × (head ≢ null) × IsQueue next' (next x) (if next x == null then null else tail) xs
pop-IsQueue {next} {head} x [] i same =
    let (e, ne, c) = i.chain in
    let z : (next x == null) ≡ true = ground arith in
    (e, rw e ne, rw z (record { chain = c; at_end = refl; distinct = tt }))
pop-IsQueue {next} {head} x (y ∷ xs) i same =
    let (e, ne, c) = i.chain in
    let z : (next x == null) ≡ false = ground arith in
    (
      e,
      rw e ne,
      rw z (record {
        chain = frame (y ∷ xs) (next x) c same;
        at_end = i.at_end;
        distinct = i.distinct.1;
      }),
    )

pub empty-IsQueue :
    {next : Ptr → Ptr} {head tail : Ptr} → IsQueue next head tail [] → (head ≡ null) × (tail ≡ null)
empty-IsQueue i = (i.chain, i.at_end)
