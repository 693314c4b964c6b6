-- ===== src/Flags/Examples.antt =====
-- Flags 1 and 3.
use asco.Prelude.{ℕ, ◌≡◌, arith, true, false}
use asco.Flags.{or_flag, or_flags, minus_flag, contains}
use asco.Flags.Sets.{flags_lem}

-- The value of an undefined shift does not matter.
abbrev zero_shift : ℕ → ℕ
zero_shift e = 0

flags_lem_example :
    (contains zero_shift 0 3 ≡ false)
    × (contains zero_shift (or_flag zero_shift 2 3) 3 ≡ true)
    × (contains zero_shift (or_flags zero_shift 2 8) 3 ≡ true)
    × (contains zero_shift (minus_flag zero_shift 2 3) 3 ≡ false)
unfolding contains
flags_lem_example = flags_lem zero_shift 2 8 3 3 (omega arith) (omega arith)
