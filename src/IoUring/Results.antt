-- ===== src/IoUring/Results.antt =====
-- `complete_open`, `complete_read` and `complete_write`: the kernel's result as a value or an error.
use asco.Prelude.{
  ℕ, suc, ◌||◌, ◌==◌, if◌then◌else◌, Option, none, some, Expected, value, unexpected,
}
use asco.File.{ℤ, pos, negsuc}
use asco.IoUring.{Adapter, complete}

-- The constants of <errno.h>, in small letters.
pub record Errno : Type 0 where
  pub enoent : ℕ
  pub eacces : ℕ
  pub eexist : ℕ
  pub enametoolong : ℕ
  pub enotdir : ℕ
  pub eisdir : ℕ
  pub emfile : ℕ
  pub enfile : ℕ
  pub ebadf : ℕ
  pub efault : ℕ

pub data OpenError : Type 0 where
  not_found permission_denied already_exists invalid_path too_many_open_files other : OpenError

-- The `type` of `read_failed` and `write_failed`, which are alike.
pub data TransferError : Type 0 where
  invalid_handle bad_buffer permission_denied other : TransferError

-- A failure, with its `raw_code`.
pub record Failed (E : Type 0) : Type 0 where
  pub type : E
  pub raw_code : ℤ

unfoldable pub open_error : Errno → ℕ → OpenError
open_error n code =
    if code == n.enoent
    then OpenError.not_found
    else if code == n.eacces
    then OpenError.permission_denied
    else if code == n.eexist
    then OpenError.already_exists
    else if (code == n.enametoolong) || (code == n.enotdir) || (code == n.eisdir)
    then OpenError.invalid_path
    else if (code == n.emfile) || (code == n.enfile)
    then OpenError.too_many_open_files
    else OpenError.other

unfoldable pub transfer_error : Errno → ℕ → TransferError
transfer_error n code =
    if code == n.ebadf
    then TransferError.invalid_handle
    else if code == n.efault
    then TransferError.bad_buffer
    else if code == n.eacces
    then TransferError.permission_denied
    else TransferError.other

-- A result that is not negative is a handle, or a number of bytes.
abbrev pub result : {E : Type 0} → (ℕ → E) → ℤ → Expected ℕ (Failed E)
result error (pos x) = value x
result error (negsuc x) = unexpected (record { type = error (suc x); raw_code = negsuc x })

module _ (n : Errno) where
  unfoldable pub complete_open : Adapter → ℕ → Option (Expected ℕ (Failed OpenError) × Adapter)
  complete_open a reqid = elim (complete a reqid) [
    | none ↦ none
    | some (res, a') ↦ some (result (open_error n) res, a')
  ]

  -- `complete_read` and `complete_write`
  unfoldable pub complete_transfer :
      Adapter → ℕ → Option (Expected ℕ (Failed TransferError) × Adapter)
  complete_transfer a reqid = elim (complete a reqid) [
    | none ↦ none
    | some (res, a') ↦ some (result (transfer_error n) res, a')
  ]
