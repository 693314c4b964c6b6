-- ===== src/SpinRwLock/Alone.antt =====
-- `try_read`, `try_write` and the guards' destructors when no other thread comes in between: the
-- word afterwards, or `none` for a guard that holds nothing.
use asco.Prelude.{ℕ, ◌+◌, ◌-◌, ◌^◌, ◌≡◌, ◌==◌, subst, if◌then◌else◌, Option, none, some, arith}
use asco.Murmur.{u64}
use asco.SpinRwLock.{Pc, Move, flags, readers, write_mask}

unfoldable pub try_read : ℕ → Option ℕ
try_read m = if flags m == 0 then some (readers m + 1) else none

unfoldable pub drop_read : ℕ → ℕ
drop_read m = u64 (m + 2 ^ 64 - 1)

unfoldable pub try_write : ℕ → Option ℕ
try_write m = if m == 0 then some write_mask else none

abbrev pub drop_write : ℕ
drop_write = 0

-- The moves of thread `i` alone.
pub data Run (i m : ℕ) (p : Pc) : ℕ → Pc → Type 0 where
  stay : Run i m p m p
  step : {m' m'' : ℕ} {p' p'' : Pc} → Run i m p m' p' → Move i m' p' m'' p'' → Run i m p m'' p''

-- A read guard that `try_read` gives a thread alone, and the word it leaves, are what the moves of
-- that thread lead to.
pub try_read-Run : (i m m' : ℕ) → try_read m ≡ some m' → Run i m Pc.idle m' Pc.holds_read
unfolding try_read
try_read-Run i m m' e =
    let calm : flags m ≡ 0 = ground arith in
    let kept : m ≡ readers m = omega arith in
    let next : readers m + 1 ≡ m' = ground arith in
    subst (λ x. Run i m Pc.idle x Pc.holds_read) next
      (step (step (step stay Move.try_read) (Move.try_read_loads calm)) (Move.try_read_wins kept))

-- A write guard that `try_write` gives a thread alone, and the word it leaves, are what the moves of
-- that thread lead to.
pub try_write-Run : (i m m' : ℕ) → try_write m ≡ some m' → Run i m Pc.idle m' Pc.holds_write
unfolding try_write
try_write-Run i m m' e =
    let calm : m ≡ 0 = ground arith in
    let next : write_mask ≡ m' = ground arith in
    subst (λ x. Run i m Pc.idle x Pc.holds_write) next
      (step (step (step stay Move.try_write) (Move.try_write_loads calm))
        (Move.try_write_wins calm))

-- A read guard that is given back leaves the word as it was before the call.
pub try_read-drop_read : (m m' : ℕ) → try_read m ≡ some m' → drop_read m' ≡ m
unfolding try_read drop_read
try_read-drop_read m m' e = ground arith
