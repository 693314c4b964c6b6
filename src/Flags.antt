-- ===== src/Flags.antt =====
-- asco/util/flags.h: a set of enumerators in one word. An enumerator is its underlying value.
pub mod Sets
mod Examples
use asco.Prelude.{ℕ, ◌-◌, ◌^◌, bit_and, bit_or, Bool, ltb, ◌==◌, if◌then◌else◌}

module _ (beyond : ℕ → ℕ) where
  -- `bit_of`: `1 << e` shifts an int of 32 bits, whose sign is extended to the word. `beyond` is what a
  -- shift by 32 and more gives, which the language leaves undefined.
  abbrev pub bit_of : ℕ → ℕ
  bit_of e = if ltb e 31 then 2 ^ e else if e == 31 then 2 ^ 64 - 2 ^ 31 else beyond e

  -- `flags::flags(E)`
  abbrev pub flag : ℕ → ℕ
  flag e = bit_of e

  -- `operator|` and `operator|=` with an enumerator, and with flags
  unfoldable pub or_flag : ℕ → ℕ → ℕ
  or_flag m_bits e = bit_or m_bits (bit_of e)

  abbrev pub or_flags : ℕ → ℕ → ℕ
  or_flags m_bits other = bit_or m_bits other

  -- `operator-` and `operator-=`; `~` on a word
  unfoldable pub minus_flag : ℕ → ℕ → ℕ
  minus_flag m_bits e = bit_and m_bits (2 ^ 64 - 1 - bit_of e)

  -- `contains`, of an enumerator and of flags
  unfoldable pub contains : ℕ → ℕ → Bool
  contains m_bits e = bit_and m_bits (bit_of e) == bit_of e

  unfoldable pub contains_all : ℕ → ℕ → Bool
  contains_all m_bits other = bit_and m_bits other == other
