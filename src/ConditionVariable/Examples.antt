-- ===== src/ConditionVariable/Examples.antt =====
-- Three waiters.
use asco.Prelude.{ℕ, ◌-◌, Bool, true, false, [], ◌∷◌, if◌then◌else◌, ltb}
use asco.ConditionVariable.{ConditionVariable, notify_if}
use asco.ConditionVariable.Order.{Conditional, notify_if_lem}

abbrev three : ConditionVariable
three = record { m_wait_queue = 4 ∷ 5 ∷ 6 ∷ []; awoken = [] }

-- The predicate of an exchange that succeeds on a positive number.
abbrev take_one : ℕ → Bool × ℕ
take_one n = if ltb 0 n then (true, n - 1) else (false, n)

notify_if_lem_example : Conditional take_one three 2 7 (notify_if take_one three 2 7)
notify_if_lem_example = notify_if_lem take_one three 2 7
