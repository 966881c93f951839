-- ===== src/User/Vfs/Transfer.antt =====
-- Reads and writes of an open file, and its offset.
use exyde.Common.{
  Option, ℕ, ◌+◌, ◌%◌, ◌^◌, ◌<◌, ◌≡◌, refl, ap, ◌∙◌, sym, true, false, arith, leb, ltb, ◌||◌, ◌==◌,
  if◌then◌else◌, bytes, Bool-cases, inl, inr,
}
use exyde.Kernel.Errno.{Result, ok, err}
use exyde.User.Ramfs.{Node}
use exyde.User.Ramfs.File.{ramfs_read, ramfs_write}
use exyde.User.Ramfs.Bytes.{IsFile}
use exyde.User.Ramfs.Write.{Written, write-Written, Written-read}
use exyde.User.Ramfs.Dir.{Fs}
use exyde.User.Vfs.Files.{
  OpenFile, acc_read, acc_write, has_flag, vfs_o_append, vfs_read, vfs_write, vfs_seek, wrote,
  advanced,
}

-- What a write at the offset `off` does to the open file and to its node.
abbrev pub Wrote : OpenFile → Fs → (ℕ → ℕ) → ℕ → ℕ → Result ℕ × OpenFile × Fs → Type 0
Wrote f s buf n off (err e, f', s') = (f' ≡ f) × (s'.nodes f.vn ≡ s.nodes f.vn)
Wrote f s buf n off (ok count, f', s') =
    (f'.vn ≡ f.vn)
    × (f'.flags ≡ f.flags)
    × (f'.offset ≡ (if (n == 0) || leb (2 ^ 63) n then f.offset else off + n))
    × Written (s.nodes f.vn) buf n off (ok count, s'.nodes f.vn)

wrote-Wrote :
    (f : OpenFile) (s : Fs) (buf : ℕ → ℕ) (n off : ℕ) (r : Result ℕ × Node)
    → off + n < 2 ^ 64
    → Written (s.nodes f.vn) buf n off r
    → Wrote f s buf n off (wrote f off s r)
wrote-Wrote f s buf n off (err e, vn) small w =
    let one : (f.vn == f.vn) ≡ true = ground arith in (refl, rw one w)
wrote-Wrote f s buf n off (ok count, vn) small w =
    let one : (f.vn == f.vn) ≡ true = ground arith in
    elim (Bool-cases (count == 0)) [
      | inl z ↦ rw (one, z) (refl, refl, ground (arith, w.0), w)
      | inr nz ↦ elim (Bool-cases (ltb count (2 ^ 63))) [
        | inl low ↦ rw (one, nz, low) (refl, refl, ground (arith, w.0), w)
        | inr high ↦ rw (one, nz, high) (refl, refl, ground (arith, w.0), w)
      ]
    ]

-- Where the offset, and the size, of a regular file stays below 2 ^ 64 behind `n` bytes, a write
-- through a file that may write goes to its offset, or to the end with O_APPEND. It moves the offset
-- behind the bytes where their number is positive as a signed 64-bit word, else the offset stays. A
-- failed one changes nothing.
pub vfs_write-Wrote :
    (malloc : ℕ → Option (ℕ → ℕ)) (f : OpenFile) (s : Fs) (buf : ℕ → ℕ) (n : ℕ)
    → IsFile (s.nodes f.vn)
    → acc_write f.flags ≡ true
    → f.offset + n < 2 ^ 64
    → (s.nodes f.vn).size + n < 2 ^ 64
    → Wrote f s buf n
        (if has_flag f.flags vfs_o_append then (s.nodes f.vn).size else f.offset)
        (vfs_write malloc f s buf n)
unfolding vfs_write
vfs_write-Wrote malloc f s buf n file may small small' =
    let off = if has_flag f.flags vfs_o_append then (s.nodes f.vn).size else f.offset in
    let fits : off + n < 2 ^ 64 = ground arith in
    rw may (
      wrote-Wrote f s buf n off (ramfs_write malloc (s.nodes f.vn) buf n off) fits
        (write-Written malloc (s.nodes f.vn) buf n off file (omega arith) (omega arith)))

seek_set :
    (f : OpenFile) (s : Fs) (off : ℕ)
    → off < 2 ^ 63
    → vfs_seek f s off 0 ≡ (ok off, record f { offset = off })
unfolding vfs_seek
seek_set f s off small =
    let e : (0 + off) % 2 ^ 64 ≡ off = ground arith in
    let low : leb (2 ^ 63) off ≡ false = ground arith in rw (e, low) refl

-- The result and the buffer of a read are those of the file system's, at the file's offset.
ReadAt : (ℕ → ℕ) → ℕ → Node → ℕ → Result ℕ × (ℕ → ℕ) × OpenFile → Type 0
ReadAt out n vn off (r, out', f') =
    (r ≡ (ramfs_read vn out n off).0) × (out' ≡ (ramfs_read vn out n off).1)

advanced-ReadAt :
    (f : OpenFile) (off : ℕ) (out : ℕ → ℕ) (n : ℕ) (vn : Node) (r : Result ℕ × (ℕ → ℕ))
    → ramfs_read vn out n off ≡ r
    → ReadAt out n vn off (advanced f off r)
unfolding ReadAt
advanced-ReadAt f off out n vn (err e, b) eq = (sym (ap (λ p. p.0) eq), sym (ap (λ p. p.1) eq))
advanced-ReadAt f off out n vn (ok c, b) eq = (sym (ap (λ p. p.0) eq), sym (ap (λ p. p.1) eq))

vfs_read-ReadAt :
    (f : OpenFile) (s : Fs) (out : ℕ → ℕ) (n : ℕ)
    → acc_read f.flags ≡ true
    → ReadAt out n (s.nodes f.vn) f.offset (vfs_read f s out n)
unfolding vfs_read
vfs_read-ReadAt f s out n may = rw may (
    advanced-ReadAt f f.offset out n (s.nodes f.vn) (ramfs_read (s.nodes f.vn) out n f.offset) refl)

-- What was written is read back after a seek to where it was written: for a regular file open for
-- both without O_APPEND, after a write that succeeded, where the offset stays below 2 ^ 63 behind
-- the bytes and the size below 2 ^ 64.
pub write-seek_read :
    (malloc : ℕ → Option (ℕ → ℕ)) (f f' : OpenFile) (s s' : Fs) (buf out : ℕ → ℕ) (n count : ℕ)
    → IsFile (s.nodes f.vn)
    → acc_write f.flags ≡ true
    → acc_read f.flags ≡ true
    → has_flag f.flags vfs_o_append ≡ false
    → f.offset + n < 2 ^ 63
    → (s.nodes f.vn).size + n < 2 ^ 64
    → vfs_write malloc f s buf n ≡ (ok count, f', s')
    → let (at, f'') = vfs_seek f' s' f.offset 0 in
      let (r, out', f₃) = vfs_read f'' s' out n in
      (at ≡ ok f.offset) × (r ≡ ok n) × (bytes out' 0 n ≡ bytes buf 0 n)
unfolding ReadAt
write-seek_read malloc f f' s s' buf out n count file may_write may_read plain small small' e =
    let w =
      coe 0 1 (k. Wrote f s buf n (if plain k then (s.nodes f.vn).size else f.offset) (e k))
        (vfs_write-Wrote malloc f s buf n file may_write (omega arith) small') in
    let (vn, flags, _, written) = w in
    let g : OpenFile = record f' { offset = f.offset } in
    let (r, read) = vfs_read-ReadAt g s' out n (ap acc_read flags ∙ may_read) in
    let same : s'.nodes f'.vn ≡ s'.nodes f.vn = ap s'.nodes vn in
    let (r', read') =
      Written-read (s.nodes f.vn) (s'.nodes f.vn) buf out n f.offset count written in
    coe 1 0
      (k.
        let (at, f'') = seek_set f' s' f.offset (omega arith) k in
        let (x, out', f₃) = vfs_read f'' s' out n in
        (at ≡ ok f.offset) × (x ≡ ok n) × (bytes out' 0 n ≡ bytes buf 0 n))
      (
        refl,
        r ∙ (ap (λ v. (ramfs_read v out n f.offset).0) same ∙ r'),
        ap (λ o. bytes o 0 n) (read ∙ ap (λ v. (ramfs_read v out n f.offset).1) same) ∙ read',
      )
