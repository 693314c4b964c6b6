-- ===== src/Future/Examples.antt =====
-- Futures of numbers, which are moved before and after the end of their coroutine.
use asco.Prelude.{ℕ, ◌≡◌, ℕ_discrete, refl, none, some, [], ◌∷◌, true, not}
use asco.Future.{
  Outcome, get_return_object, complete, move, move_to, move_from, await_resume, destroys_value,
  is_null,
}
use asco.Future.Travel.{travel, future_lem}

-- The coroutine throws 7, and its future is then moved.
abbrev thrown : Outcome ℕ ℕ
thrown = Outcome.threw 7

future_lem_example :
    let s =
      travel
        (λ v. 0)
        (λ e. none)
        1
        (2 ∷ 3 ∷ [])
        (complete thrown (travel (λ v. 0) (λ e. none) 0 (1 ∷ []) get_return_object)) in
    (await_resume (s.futures 3) ≡ some thrown)
    × (destroys_value (s.futures 3) ≡ not (is_null (s.futures 3).m_value))
    × (s.stray_writes ≡ 2)
future_lem_example = future_lem (λ v. 0) (λ e. none) thrown (1 ∷ []) (2 ∷ 3 ∷ [])

-- The future that is left in variable 2.
left_run :
    destroys_value
      ((travel (λ v. 0) (λ e. none) 0 (2 ∷ 3 ∷ []) (complete thrown get_return_object)).futures 2)
    ≡ true
unfolding get_return_object complete move move_to move_from destroys_value ℕ_discrete
left_run = refl
