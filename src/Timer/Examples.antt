-- ===== src/Timer/Examples.antt =====
-- Three timers in one second, of which the second is cancelled and the third is not due.
use asco.Prelude.{ℕ, inl, arith, [], ◌∷◌, List}
use asco.Timer.{TimerId, Entry, sweep}
use asco.Timer.Sweep.{Swept, sweep-Swept}

abbrev timer : ℕ → Entry
timer n = record { id = record { seq = n; hash = 0 }; token = n }

abbrev timers : List Entry
timers = timer 10 ∷ timer 20 ∷ timer 30 ∷ []

abbrev cancelled_ids : List TimerId
cancelled_ids = record { seq = 20; hash = 0 } ∷ []

sweep-Swept_example : Swept 25 timers cancelled_ids (sweep 25 timers cancelled_ids)
sweep-Swept_example =
    sweep-Swept 25 timers cancelled_ids
      ((inl (omega arith), (inl (omega arith), tt)), ((inl (omega arith), tt), (tt, tt)))
