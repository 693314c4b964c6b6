-- ===== src/Guards/Examples.antt =====
-- Programs with two or three variables.
use asco.Prelude.{
  ℕ, ◌≤◌, ◌≡◌, ◌≢◌, refl, arith, Bool, true, false, to_nat, update, update_ne, weight,
}
use asco.Guards.{Program, beginning, locks, moves, Reach, start, later, after_move}
use asco.Guards.Owned.{Kind, class, guards_lem}

abbrev apart : ◌≢◌ {A = ℕ} 1 0
apart e = omega arith

abbrev apart' : ◌≢◌ {A = ℕ} 0 1
apart' e = omega arith

abbrev one_lock : Program Bool
one_lock = record { taken = 1; vars = update (λ _. false) 0 true }

abbrev lock_moved : Program Bool
lock_moved = after_move (class Kind.mutex) one_lock 1 0

lock_then_move : Reach (class Kind.mutex) 2 (beginning (class Kind.mutex)) lock_moved
lock_then_move =
    later (later start (locks 0 (omega arith) refl))
      (moves 1 0 (omega arith) (omega arith) apart (update_ne (λ (_ : ℕ). false) 0 1 true apart'))

guards_lem_example :
    (lock_moved.taken ≡ weight to_nat lock_moved.vars 2)
    × (weight (λ g. to_nat g) lock_moved.vars 2 ≤ lock_moved.taken)
guards_lem_example = guards_lem Kind.mutex 2 lock_then_move

abbrev two_read : Program Bool
two_read = record { taken = 2; vars = λ _. true }
