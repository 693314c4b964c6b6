-- ===== src/File.antt =====
-- asco/io/file.cpp: the file pointer, a `std::ptrdiff_t` of 64 bits. The operating system's answers, the size of
-- the file and the result of a read or a write, are arguments.
pub mod Seek
mod Examples
use asco.Prelude.{
  ℕ, zero, suc, ◌+◌, ◌-◌, ◌^◌, Bool, true, false, ◌&&◌, ltb, if◌then◌else◌, Option, none, some,
  Expected, value, unexpected,
}
use asco.Murmur.{u64}

pub data ℤ : Type 0 where
  pos : ℕ → ℤ
  negsuc : ℕ → ℤ

-- `x - y` of two naturals.
abbrev pub sub_nat : ℕ → ℕ → ℤ
sub_nat x zero = pos x
sub_nat zero (suc y) = negsuc y
sub_nat (suc x) (suc y) = sub_nat x y

infixl 60 ◌+ℤ◌
abbrev pub ◌+ℤ◌ : ℤ → ℤ → ℤ
pos x +ℤ pos y = pos (x + y)
pos x +ℤ negsuc y = sub_nat x (suc y)
negsuc x +ℤ pos y = sub_nat y (suc x)
negsuc x +ℤ negsuc y = negsuc (suc (x + y))

abbrev pub neg : ℤ → ℤ
neg (pos zero) = pos zero
neg (pos (suc x)) = negsuc x
neg (negsuc x) = pos (suc x)

-- `x < y`
abbrev pub ltz : ℤ → ℤ → Bool
ltz (pos x) (pos y) = ltb x y
ltz (pos x) (negsuc y) = false
ltz (negsuc x) (pos y) = true
ltz (negsuc x) (negsuc y) = ltb y x

pub data SeekMode : Type 0 where
  set current end : SeekMode

-- The handle is left to the operating system.
pub record File : Type 0 where
  pub m_valid : Bool
  pub m_fptr : ℤ

-- `from_handle`, and the result of `open`
abbrev pub opened : File
opened = record { m_valid = true; m_fptr = pos 0 }

abbrev pub close : File → File
close f = record f { m_valid = false }

-- A number of 64 bits in two's complement, and back.
abbrev pub to_bits : ℤ → ℕ
to_bits (pos x) = x
to_bits (negsuc x) = 2 ^ 64 - 1 - x

abbrev pub to_signed : ℕ → ℤ
to_signed bits = if ltb bits (2 ^ 63) then pos bits else negsuc (2 ^ 64 - 1 - bits)

abbrev pub is_ptrdiff : ℤ → Bool
is_ptrdiff (pos x) = ltb x (2 ^ 63)
is_ptrdiff (negsuc x) = ltb x (2 ^ 63)

-- `-x` and `x + y` of signed numbers; `none` is the overflow, which is undefined.
abbrev pub ptrdiff : ℤ → Option ℤ
ptrdiff x = if is_ptrdiff x then some x else none

-- How a call ends: with the panic of `check_valid`, with a signed overflow, or with the file.
pub data Ending : Type 0 where
  panicked overflowed : Ending
  leaves : File → Ending

-- `seek_mode::end` with `m_fptr` at `fptr`.
unfoldable pub from_end : ℤ → ℕ → Option ℤ
from_end fptr size = elim (ptrdiff (neg fptr)) [
  | none ↦ none
  | some back ↦ if ltz (to_signed size) back then some (pos 0) else ptrdiff (fptr +ℤ to_signed size)
]

unfoldable pub sought : ℤ → ℤ → SeekMode → ℕ → Option ℤ
sought fptr offset set size = if ltz offset (pos 0) then some (pos 0) else some offset
sought fptr offset current size =
    if ltz offset (pos 0)
    then elim (ptrdiff (neg offset)) [
      | none ↦ none
      | some back ↦ if ltz fptr back then some (pos 0) else ptrdiff (fptr +ℤ offset)
    ]
    else ptrdiff (fptr +ℤ offset)
sought fptr offset end size =
    if ltz (pos 0) offset then from_end (pos 0) size else from_end offset size

-- `size` is what the operating system reports.
unfoldable pub seek : File → ℤ → SeekMode → ℕ → Ending
seek f offset mode size =
    let fptr = sought f.m_fptr offset mode size in
    if f.m_valid
    then elim fptr [ none ↦ Ending.overflowed | some p ↦ Ending.leaves (record f { m_fptr = p }) ]
    else Ending.panicked

-- `read` and `write` with the operating system's result, a number of bytes, which is unsigned, or an error.
unfoldable pub transfer {ℓ} : {E : Type ℓ} → File → Expected ℕ E → Ending
transfer f (value n) =
    if f.m_valid
    then Ending.leaves (record f { m_fptr = to_signed (u64 (to_bits f.m_fptr + n)) })
    else Ending.panicked
transfer f (unexpected e) = if f.m_valid then Ending.leaves f else Ending.panicked
