-- ===== src/Kernel/Vmm/Entry.antt =====
-- Page table entries: an address, a multiple of the page size, and flags below it.
use exyde.Common.{
  ℕ, zero, suc, ◌+◌, ◌-◌, ◌*◌, ◌/◌, ◌%◌, ◌^◌, ◌<◌, ◌≡◌, refl, ap, ◌∙◌, sym, Bool, true, false, not,
  some, ◌==◌, if◌then◌else◌, bit_and, bit_or, arith,
}
use exyde.Common.Bits.{pow_pos, bit_and-mask, bit_and-shifted, bit_or-shifted}
use exyde.Kernel.Vmm.{
  test_flag, flags_to_pte, pte_to_flags, pte_addr_mask, pte_huge, pte_present, pte_write, pte_user,
  pte_pwt, pte_pcd, vm_present, vm_write, vm_user, vm_nocache, or_if, is_offset, child_of,
}

-- A single flag is a digit.
pub bit_and-flag : (k e : ℕ) → bit_and e (1 * 2 ^ k) ≡ e / 2 ^ k % 2 * 2 ^ k
bit_and-flag k e = bit_and-shifted k e 1 ∙ ap (λ t. t * 2 ^ k) (bit_and-mask 1 (e / 2 ^ k))

pub mask-address : (e : ℕ) → bit_and e pte_addr_mask ≡ e / 4096 % 2 ^ 40 * 4096
mask-address e = bit_and-shifted 12 e (2 ^ 40 - 1) ∙ ap (λ t. t * 4096) (bit_and-mask 40 (e / 4096))

-- An entry with the address `m * 4096` and the flags `c`.
module _ (m c : ℕ) (low : c < 4096) where
  pub or-add : bit_or (m * 4096) c ≡ m * 4096 + c
  or-add = bit_or-shifted 12 m c low

  pub address-or : m < 2 ^ 40 → bit_and (bit_or (m * 4096) c) pte_addr_mask ≡ m * 4096
  address-or small = rw or-add (mask-address (m * 4096 + c) ∙ omega arith)

  pub present-or : test_flag (bit_or (m * 4096) c) pte_present ≡ not (c % 2 == 0)
  unfolding test_flag
  present-or = rw or-add (ground (arith, bit_and-flag 0 (m * 4096 + c)))

  pub huge-or : test_flag (bit_or (m * 4096) c) pte_huge ≡ not (c / 128 % 2 == 0)
  unfolding test_flag
  huge-or = rw or-add (ground (arith, bit_and-flag 7 (m * 4096 + c)))

  write-or : test_flag (bit_or (m * 4096) c) pte_write ≡ not (c / 2 % 2 == 0)
  unfolding test_flag
  write-or = rw or-add (ground (arith, bit_and-flag 1 (m * 4096 + c)))

  user-or : test_flag (bit_or (m * 4096) c) pte_user ≡ not (c / 4 % 2 == 0)
  unfolding test_flag
  user-or = rw or-add (ground (arith, bit_and-flag 2 (m * 4096 + c)))

  nocache-or : test_flag (bit_or (m * 4096) c) (bit_or pte_pwt pte_pcd) ≡ not (c / 8 % 4 == 0)
  unfolding test_flag
  nocache-or =
      let two : bit_and (m * 4096 + c) (3 * 2 ^ 3) ≡ (m * 4096 + c) / 8 % 4 * 8 =
        bit_and-shifted 3 (m * 4096 + c) 3
        ∙ ap (λ t. t * 8) (bit_and-mask 2 ((m * 4096 + c) / 8)) in
      rw or-add (ground (arith, two))

  pte_to_flags-or :
      pte_to_flags (bit_or (m * 4096) c)
      ≡ or_if (not (c / 8 % 4 == 0)) 8 (
          or_if
            (not (c / 4 % 2 == 0))
            4
            (or_if (not (c / 2 % 2 == 0)) 2 (or_if (not (c % 2 == 0)) 1 0)))
  unfolding pte_to_flags
  pte_to_flags-or = rw (nocache-or, user-or, write-or, present-or) refl

-- The flags of a present page: in an entry, and as they are asked for.
abbrev pte_code : Bool → Bool → Bool → ℕ
pte_code w u n = or_if n 24 (or_if u 4 (or_if w 2 1))

abbrev vm_code : Bool → Bool → Bool → ℕ
vm_code w u n = or_if n 8 (or_if u 4 (or_if w 2 1))

pte_to_flags-code :
    (m : ℕ) (w u n : Bool) → pte_to_flags (bit_or (m * 4096) (pte_code w u n)) ≡ vm_code w u n
pte_to_flags-code m false false false = pte_to_flags-or m 1 (omega arith)
pte_to_flags-code m false false true = pte_to_flags-or m 25 (omega arith)
pte_to_flags-code m false true false = pte_to_flags-or m 5 (omega arith)
pte_to_flags-code m false true true = pte_to_flags-or m 29 (omega arith)
pte_to_flags-code m true false false = pte_to_flags-or m 3 (omega arith)
pte_to_flags-code m true false true = pte_to_flags-or m 27 (omega arith)
pte_to_flags-code m true true false = pte_to_flags-or m 7 (omega arith)
pte_to_flags-code m true true true = pte_to_flags-or m 31 (omega arith)

pte_code-lt : (w u n : Bool) → (pte_code w u n < 4096) × (pte_code w u n % 2 ≡ 1)
pte_code-lt false false false = (omega arith, refl)
pte_code-lt false false true = (omega arith, refl)
pte_code-lt false true false = (omega arith, refl)
pte_code-lt false true true = (omega arith, refl)
pte_code-lt true false false = (omega arith, refl)
pte_code-lt true false true = (omega arith, refl)
pte_code-lt true true false = (omega arith, refl)
pte_code-lt true true true = (omega arith, refl)

flags_to_pte-code :
    (f : ℕ)
    → test_flag f vm_present ≡ true
    → flags_to_pte f
      ≡ pte_code (test_flag f vm_write) (test_flag f vm_user) (test_flag f vm_nocache)
unfolding flags_to_pte
flags_to_pte-code f on = rw on refl

digit_of : (d p : ℕ) (b : Bool) → 0 < p → d < 2 → not (d * p == 0) ≡ b → d ≡ (if b then 1 else 0)
digit_of zero p true pos lt e = ground (arith, e)
digit_of zero p false pos lt e = refl
digit_of (suc zero) p true pos lt e = refl
digit_of (suc zero) p false pos lt e = ground (arith, e)
digit_of (suc (suc d)) p b pos lt e = absurd (omega arith)

digit : (k f : ℕ) {b : Bool} → test_flag f (1 * 2 ^ k) ≡ b → f / 2 ^ k % 2 ≡ (if b then 1 else 0)
unfolding test_flag
digit k f {b} e =
    digit_of (f / 2 ^ k % 2) (2 ^ k) b (pow_pos k) (omega arith)
      (ap (λ t. not (t == 0)) (sym (bit_and-flag k f)) ∙ e)

-- The low four bits of the flags are their code.
vm_code-flags :
    (f : ℕ)
    → test_flag f vm_present ≡ true
    → vm_code (test_flag f vm_write) (test_flag f vm_user) (test_flag f vm_nocache) ≡ f % 16
vm_code-flags f on =
    low_bits (test_flag f vm_write) (test_flag f vm_user) (test_flag f vm_nocache) refl refl refl
  where
    one : f / 2 ^ 0 % 2 ≡ 1
    one = digit 0 f on

    low_bits :
        (w u n : Bool)
        → test_flag f vm_write ≡ w
        → test_flag f vm_user ≡ u
        → test_flag f vm_nocache ≡ n
        → vm_code w u n ≡ f % 16
    low_bits false false false is_w is_u is_n =
        omega (arith, one, digit 1 f is_w, digit 2 f is_u, digit 3 f is_n)
    low_bits false false true is_w is_u is_n =
        omega (arith, one, digit 1 f is_w, digit 2 f is_u, digit 3 f is_n)
    low_bits false true false is_w is_u is_n =
        omega (arith, one, digit 1 f is_w, digit 2 f is_u, digit 3 f is_n)
    low_bits false true true is_w is_u is_n =
        omega (arith, one, digit 1 f is_w, digit 2 f is_u, digit 3 f is_n)
    low_bits true false false is_w is_u is_n =
        omega (arith, one, digit 1 f is_w, digit 2 f is_u, digit 3 f is_n)
    low_bits true false true is_w is_u is_n =
        omega (arith, one, digit 1 f is_w, digit 2 f is_u, digit 3 f is_n)
    low_bits true true false is_w is_u is_n =
        omega (arith, one, digit 1 f is_w, digit 2 f is_u, digit 3 f is_n)
    low_bits true true true is_w is_u is_n =
        omega (arith, one, digit 1 f is_w, digit 2 f is_u, digit 3 f is_n)

-- An address that is no offset into a page.
pub aligned : (a : ℕ) → is_offset a ≡ false → a % 4096 ≡ 0
unfolding test_flag
aligned a e = ground (arith, e, bit_and-mask 12 a)

-- The entry of a mapped page, with its address and the low four flags.
pub leaf_entry :
    (pa f : ℕ)
    → is_offset pa ≡ false
    → pa < 2 ^ 52
    → test_flag f vm_present ≡ true
    → let e = bit_or (bit_and pa pte_addr_mask) (flags_to_pte f) in
      (test_flag e pte_present ≡ true) × (bit_and e pte_addr_mask ≡ pa) × (pte_to_flags e ≡ f % 16)
leaf_entry pa f even small on =
    let c = pte_code (test_flag f vm_write) (test_flag f vm_user) (test_flag f vm_nocache) in
    let (low, odd) =
      pte_code-lt (test_flag f vm_write) (test_flag f vm_user) (test_flag f vm_nocache) in
    let m = pa / 4096 in
    let at : m * 4096 ≡ pa = omega (arith, aligned pa even) in
    let same : bit_and pa pte_addr_mask ≡ m * 4096 = mask-address pa ∙ omega arith in
    rw (same, flags_to_pte-code f on)
      (
        present-or m c low ∙ ap (λ t. not (t == 0)) odd,
        address-or m c low (omega arith) ∙ at,
        pte_to_flags-code m (test_flag f vm_write) (test_flag f vm_user) (test_flag f vm_nocache)
            ∙ vm_code-flags f on,
      )

-- The entry of a table.
pub table_entry :
    (m : ℕ) (user : Bool)
    → m < 2 ^ 40
    → child_of (bit_or (m * 4096) (or_if user pte_user (bit_or pte_present pte_write)))
      ≡ some (m * 4096)
table_entry m true small =
    rw (present-or m 7 (omega arith), huge-or m 7 (omega arith), address-or m 7 (omega arith) small)
      refl
table_entry m false small =
    rw (present-or m 3 (omega arith), huge-or m 3 (omega arith), address-or m 3 (omega arith) small)
      refl

pub table_entry-plain :
    (m : ℕ) (user : Bool)
    → test_flag (bit_or (m * 4096) (or_if user pte_user (bit_or pte_present pte_write))) pte_huge
      ≡ false
table_entry-plain m true = huge-or m 7 (omega arith)
table_entry-plain m false = huge-or m 3 (omega arith)
