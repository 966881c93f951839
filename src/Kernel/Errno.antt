-- ===== src/Kernel/Errno.antt =====
-- The error numbers of src/kernel/include/exyde/errno.h that the modelled code returns, and the
-- result of a function that returns a value or `-errno`.

pub data Errno : Type 0 where
  eperm enoent eagain enomem efault eexist enodev enotdir eisdir einval enfile emfile : Errno
  ebadf erange enametoolong enosys enotempty : Errno

pub data Result {ℓ} (A : Type ℓ) : Type ℓ where
  ok : A → Result A
  err : Errno → Result A

infixl 5 ◌>>=◌
abbrev pub ◌>>=◌ {ℓ κ} : {A : Type ℓ} {B : Type κ} → Result A → (A → Result B) → Result B
ok a >>= f = f a
err e >>= f = err e
