-- ===== src/User/FdTable/Slots.antt =====
-- Descriptors are handed out from the lowest on, and closing one undoes its allocation.
use exyde.Common.{
  ℕ, zero, suc, ◌+◌, ◌≤◌, ◌<◌, ◌≡◌, ◌≢◌, refl, ap, ◌∙◌, false, [], ◌∷◌, Option, some, none, arith,
  leb, ◌==◌, if◌then◌else◌, update, Bool-cases, inl, inr,
}
use exyde.User.FdTable.{
  File, FdTable, vfs_fd_max, fd_alloc_loop, vfs_fd_alloc, vfs_fd_get, vfs_fd_close,
}

-- The result of the allocation of a descriptor from `lo` on, among `n` slots, for the file `f`.
abbrev pub Allocated : FdTable → File → ℕ → ℕ → Option ℕ × FdTable → Type 0
Allocated t f lo n (none, t') =
    ((i : ℕ) → lo ≤ i → i < lo + n → t.files i ≢ 0) × ((i : ℕ) → t'.files i ≡ t.files i)
Allocated t f lo n (some fd, t') =
    (lo ≤ fd)
    × (fd < lo + n)
    × (t.files fd ≡ 0)
    × ((i : ℕ) → lo ≤ i → i < fd → t.files i ≢ 0)
    × ((i : ℕ) → t'.files i ≡ (if fd == i then f else t.files i))

Allocated-suc :
    (t : FdTable) (f : File) (lo n : ℕ) (r : Option ℕ × FdTable)
    → t.files lo ≢ 0
    → Allocated t f (lo + 1) n r
    → Allocated t f lo (suc n) r
Allocated-suc t f lo n (none, t') ne (none_free, same) = (
  (λ i le lt. elim (Bool-cases (i == lo)) [
    | inl e ↦ λ z. ne (ap t.files (let at : lo ≡ i = ground arith in at) ∙ z)
    | inr e ↦ none_free i (ground arith) (omega arith)
  ]),
  same,
)
Allocated-suc t f lo n (some fd, t') ne (le, lt, free, below, put) = (
  omega arith,
  omega arith,
  free,
  (λ i l u. elim (Bool-cases (i == lo)) [
    | inl e ↦ λ z. ne (ap t.files (let at : lo ≡ i = ground arith in at) ∙ z)
    | inr e ↦ below i (ground arith) u
  ]),
  put,
)

fd_alloc_loop-Allocated :
    (t : FdTable) (f : File) (n lo : ℕ) → Allocated t f lo n (fd_alloc_loop n lo f t)
unfolding fd_alloc_loop
fd_alloc_loop-Allocated t f zero lo = (λ i le lt. absurd (omega arith), λ i. refl)
fd_alloc_loop-Allocated t f (suc n) lo = elim (Bool-cases (t.files lo == 0)) [
  | inl z ↦
      rw z (omega arith, omega arith, ground arith, (λ i l u. absurd (omega arith)), λ i. refl)
  | inr z ↦ rw z (
      Allocated-suc t f lo n (fd_alloc_loop n (lo + 1) f t) (λ e. ground arith)
        (fd_alloc_loop-Allocated t f n (lo + 1)))
]

-- An allocation takes the lowest free descriptor below 64 for the file and changes no other. It
-- fails, and changes nothing, only if none of them is free.
pub alloc-Allocated : (t : FdTable) (f : File) → Allocated t f 0 64 (vfs_fd_alloc t f)
unfolding vfs_fd_alloc
alloc-Allocated t f = fd_alloc_loop-Allocated t f 64 0

-- A close of the descriptor of a file closes that file alone, and the descriptor is free again,
-- while every other one is as before.
pub close-get :
    (t : FdTable) (fd : ℕ)
    → vfs_fd_get t fd ≢ 0
    → (t' : FdTable) × (vfs_fd_close t fd ≡ some (vfs_fd_get t fd ∷ [], t'))
      × ((i : ℕ) → vfs_fd_get t' i ≡ (if fd == i then 0 else vfs_fd_get t i))
unfolding vfs_fd_get vfs_fd_close
close-get t fd used = elim (Bool-cases (leb vfs_fd_max fd)) [
  | inl out ↦ absurd (used (rw out refl))
  | inr inside ↦
      let ne : t.files fd ≢ 0 = λ e. used (rw inside e) in
      let full : (t.files fd == 0) ≡ false = ground arith in
      rw (inside, full) (record { files = update t.files fd 0 }, refl, λ i. ground arith)
]
