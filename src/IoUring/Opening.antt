-- ===== src/IoUring/Opening.antt =====
-- `submit_open` and `complete_open`: flags and modes for the kernel, and its errors.
use asco.Prelude.{ℕ, ◌+◌, ◌*◌, ◌^◌, ◌≡◌, Bool, ◌&&◌, to_nat, if◌then◌else◌, bit_or, arith}
use asco.IoUring.Request.{OpenFlag, CreateMode}

-- The constants of <fcntl.h>, in small letters.
pub record Fcntl : Type 0 where
  pub o_rdonly : ℕ
  pub o_wronly : ℕ
  pub o_rdwr : ℕ
  pub o_creat : ℕ
  pub o_trunc : ℕ
  pub o_append : ℕ
  pub o_excl : ℕ
  pub o_tmpfile : ℕ

-- `if (b) { word |= bits; }`
abbrev pub set_if : Bool → ℕ → ℕ → ℕ
set_if b bits word = if b then bit_or word bits else word

unfoldable pub open_access : Fcntl → (OpenFlag → Bool) → ℕ
open_access c contains =
    if contains OpenFlag.read && contains OpenFlag.write
    then c.o_rdwr
    else if contains OpenFlag.write
    then c.o_wronly
    else c.o_rdonly

unfoldable pub open_word : Fcntl → (OpenFlag → Bool) → ℕ
open_word c contains = set_if (contains OpenFlag.temporary) c.o_tmpfile (
    set_if (contains OpenFlag.exclusive) c.o_excl (
      set_if (contains OpenFlag.append) c.o_append (
        set_if (contains OpenFlag.truncate) c.o_trunc
          (set_if (contains OpenFlag.create) c.o_creat (open_access c contains)))))

unfoldable pub mode_word : (CreateMode → Bool) → ℕ
mode_word contains = set_if (contains CreateMode.execute_share) 9 (
    set_if (contains CreateMode.write_share) (9 * 2 ^ 1) (
      set_if (contains CreateMode.read_share) (9 * 2 ^ 2) (
        set_if (contains CreateMode.execute) (2 ^ 6) (
          set_if (contains CreateMode.write) (2 ^ 7)
            (set_if (contains CreateMode.read) (2 ^ 8) 0)))))

-- Three permissions as an octal digit.
abbrev pub rwx : Bool → Bool → Bool → ℕ
rwx r w x = 4 * to_nat r + 2 * to_nat w + to_nat x

mode_cases :
    (r w x rs ws xs : Bool)
    → set_if xs 9 (
        set_if ws
          (9 * 2 ^ 1)
          (set_if rs (9 * 2 ^ 2) (set_if x (2 ^ 6) (set_if w (2 ^ 7) (set_if r (2 ^ 8) 0)))))
      ≡ 64 * rwx r w x + 8 * rwx rs ws xs + rwx rs ws xs
mode_cases r w x rs ws xs = ground arith

-- The mode of a new file has the owner's permissions as they were asked for as its first octal digit, and
-- the shared ones as both its second and its third.
pub mode_word_lem :
    (contains : CreateMode → Bool)
    → mode_word contains
      ≡ 64
          * rwx (contains CreateMode.read) (contains CreateMode.write) (contains CreateMode.execute)
        + 8
          * rwx
              (contains CreateMode.read_share)
              (contains CreateMode.write_share)
              (contains CreateMode.execute_share)
        + rwx
            (contains CreateMode.read_share)
            (contains CreateMode.write_share)
            (contains CreateMode.execute_share)
unfolding mode_word
mode_word_lem contains = mode_cases _ _ _ _ _ _
