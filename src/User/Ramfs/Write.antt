-- ===== src/User/Ramfs/Write.antt =====
-- What the bytes of a file are after a write and a truncation, and the round trip through a read.
use exyde.Common.{
  ℕ, ◌+◌, ◌-◌, ◌%◌, ◌^◌, ◌<◌, min, ◌≡◌, refl, ap, ◌∙◌, Bool, true, false, ◌&&◌, ◌||◌, Option, arith,
  leb, ltb, ◌==◌, if◌then◌else◌, copy_loop_lem, bytes, bytes_congr, bytes-copy, fill_lem,
  Bool-cases, inl, inr,
}
use exyde.Kernel.Errno.{Result, ok, err}
use exyde.User.Ramfs.{Node, vfs_type_reg}
use exyde.User.Ramfs.File.{ramfs_read, ramfs_write, ramfs_truncate, make_room, written}
use exyde.User.Ramfs.Bytes.{IsFile, MadeRoom, make_room-MadeRoom}

-- A byte of the file after a write of `n` bytes at `off`. A gap behind the old end reads as zeros
-- only if the block is a new one.
abbrev pub byte_after : Node → (ℕ → ℕ) → ℕ → ℕ → ℕ → ℕ
byte_after vn buf n off i =
    if leb off i && ltb i (off + n)
    then buf (i - off)
    else if ltb i vn.size || leb (off + n) vn.capacity
    then vn.contents i
    else 0

abbrev pub Written : Node → (ℕ → ℕ) → ℕ → ℕ → Result ℕ × Node → Type 0
Written vn buf n off (err e, vn') = vn' ≡ vn
Written vn buf n off (ok count, vn') =
    (count ≡ n)
    × IsFile vn'
    × (vn'.size ≡ (if n == 0 then vn.size else if ltb vn.size (off + n) then off + n else vn.size))
    × ((i : ℕ) → i < vn'.size → vn'.contents i ≡ byte_after vn buf n off i)

written-Written :
    (vn : Node) (buf : ℕ → ℕ) (n off : ℕ) (r : Result Node)
    → (n == 0) ≡ false
    → MadeRoom vn off (off + n) r
    → Written vn buf n off (written vn buf n off r)
written-Written vn buf n off (err e) some_bytes m = refl
written-Written vn buf n off (ok vn') some_bytes (f, room, same, kept) = rw some_bytes (
  refl,
  record {
    regular = f.regular;
    fits = ground (arith, f.fits);
    word = f.word;
    unallocated = f.unallocated;
  },
  ground arith,
  λ i lt. ground (arith, kept i, copy_loop_lem vn'.contents off buf 0 0 n i),
)

-- With a count and an offset of 64 bits, a write to a regular file whose contents lie in its block
-- keeps it so, puts the bytes where it says and keeps the others, or it fails and leaves the file as
-- it was. A gap behind the old end reads as zeros if the block had to grow.
pub write-Written :
    (malloc : ℕ → Option (ℕ → ℕ)) (vn : Node) (buf : ℕ → ℕ) (n off : ℕ)
    → IsFile vn
    → n < 2 ^ 64
    → off < 2 ^ 64
    → Written vn buf n off (ramfs_write malloc vn buf n off)
unfolding ramfs_write
write-Written malloc vn buf n off f ln lo =
    let reg : (vn.type == vfs_type_reg) ≡ true = ground (arith, f.regular) in
    elim (Bool-cases (n == 0)) [
      | inl z ↦ rw (reg, z) (ground arith, f, ground arith, λ i lt. ground arith)
      | inr some_bytes ↦ elim (Bool-cases (ltb ((off + n) % 2 ^ 64) off)) [
        | inl wraps ↦ rw (reg, some_bytes, wraps) refl
        | inr fits ↦
            let e : (off + n) % 2 ^ 64 ≡ off + n = ground arith in
            let e' : ltb (off + n) off ≡ false = ground arith in
            rw (reg, some_bytes, e, e')
              (written-Written vn buf n off (make_room malloc vn off (off + n)) some_bytes
                (make_room-MadeRoom malloc vn off (off + n) f (omega arith)))
      ]
    ]

abbrev pub Truncated : Node → ℕ → Result ℕ × Node → Type 0
Truncated vn size (err e, vn') = vn' ≡ vn
Truncated vn size (ok z, vn') =
    IsFile vn'
    × (vn'.size ≡ size)
    × ((i : ℕ) → i < size → vn'.contents i ≡ (if ltb i vn.size then vn.contents i else 0))

-- A truncation of a regular file, whose contents lie in its block, to a size of 64 bits keeps the
-- bytes before both ends and reads as zeros behind the old end, or it fails and leaves the file as
-- it was.
pub truncate-Truncated :
    (got : Bool) (vn : Node) (size : ℕ)
    → IsFile vn
    → size < 2 ^ 64
    → Truncated vn size (ramfs_truncate got vn size)
unfolding ramfs_truncate
truncate-Truncated got vn size f ls =
    let reg : (vn.type == vfs_type_reg) ≡ true = ground (arith, f.regular) in
    elim (Bool-cases (size == vn.size)) [
      | inl same ↦ rw (reg, same) (f, ground arith, λ i lt. ground arith)
      | inr other ↦ elim (Bool-cases (leb size vn.capacity)) [
        | inl fits ↦
            rw (reg, other, fits)
              (
                record {
                  regular = f.regular;
                  fits = ground arith;
                  word = f.word;
                  unallocated = f.unallocated;
                },
                refl,
                λ i lt. ground (arith, fill_lem (size - vn.size) vn.size 0 vn.contents i),
              )
        | inr grows ↦ elim (Bool-cases got) [
          | inr failed ↦ rw (reg, other, grows, failed) refl
          | inl success ↦
              rw (reg, other, grows, success)
                (
                  record {
                    regular = f.regular;
                    fits = omega arith;
                    word = ls;
                    unallocated = λ e. cc;
                  },
                  refl,
                  λ i lt. ground (
                    arith,
                    f.fits,
                    f.unallocated,
                    copy_loop_lem (λ j. 0) 0 vn.contents 0 0
                        (if vn.allocated then min vn.size size else 0) i,
                  ),
                )
        ]
      ]
    ]

-- A read returns the bytes from `off` on, as many as are asked for and the file has.
pub read-bytes :
    (vn : Node) (buf : ℕ → ℕ) (n off : ℕ)
    → IsFile vn
    → let count = min n (vn.size - off) in
      let (r, buf') = ramfs_read vn buf n off in
      (r ≡ ok count) × (bytes buf' 0 count ≡ bytes vn.contents off count)
unfolding ramfs_read
read-bytes vn buf n off f =
    let reg : (vn.type == vfs_type_reg) ≡ true = ground (arith, f.regular) in
    elim (Bool-cases (leb vn.size off)) [
      | inl past ↦
          let e : min n (vn.size - off) ≡ 0 = ground arith in rw (reg, past, e) (refl, refl)
      | inr inside ↦
          let e : (if ltb (vn.size - off) n then vn.size - off else n) ≡ min n (vn.size - off) =
            ground arith in
          rw (reg, inside, e) (refl, bytes-copy buf 0 vn.contents off (min n (vn.size - off)))
    ]

pub Written-read :
    (vn vn' : Node) (buf out : ℕ → ℕ) (n off count : ℕ)
    → Written vn buf n off (ok count, vn')
    → let (r, out') = ramfs_read vn' out n off in (r ≡ ok n) × (bytes out' 0 n ≡ bytes buf 0 n)
Written-read vn vn' buf out n off count (counted, f', size, byte) =
    let all : min n (vn'.size - off) ≡ n = ground (arith, size) in
    let (r, read) = read-bytes vn' out n off f' in
    (
      r ∙ ap ok all,
      coe 0 1 (k. bytes (ramfs_read vn' out n off).1 0 (all k) ≡ bytes vn'.contents off (all k))
            read
          ∙ bytes_congr vn'.contents buf off 0 n (λ k lt.
            let z : off + k - off ≡ 0 + k = omega arith in
            byte (off + k) (ground (arith, size)) ∙ ground (arith, ap buf z)),
    )

-- What a write that succeeded put at `off` is read back there, whole.
pub write-read :
    (malloc : ℕ → Option (ℕ → ℕ)) (vn vn' : Node) (buf out : ℕ → ℕ) (n off count : ℕ)
    → IsFile vn
    → n < 2 ^ 64
    → off < 2 ^ 64
    → ramfs_write malloc vn buf n off ≡ (ok count, vn')
    → let (r, out') = ramfs_read vn' out n off in (r ≡ ok n) × (bytes out' 0 n ≡ bytes buf 0 n)
write-read malloc vn vn' buf out n off count f ln lo e =
    Written-read vn vn' buf out n off count
      (coe 0 1 (k. Written vn buf n off (e k)) (write-Written malloc vn buf n off f ln lo))
