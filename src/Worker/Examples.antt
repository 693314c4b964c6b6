-- ===== src/Worker/Examples.antt =====
-- A worker whose domain 0 holds an execution 5 with a subdomain 1.
use asco.Prelude.{
  ℕ, zero, suc, ◌<◌, ◌≡◌, ◌==◌, refl, arith, true, false, not, ◌||◌, none, some, List, [], ◌∷◌,
  if◌then◌else◌,
}
use asco.Worker.{Action, Answers, execute_top, descend, run_once}
use asco.Worker.Way.{Stop, Finish, Way, all_calls}
use asco.Worker.Turn.{goes_on, run_once_lem}

abbrev schedule : ℕ → ℕ × ℕ
schedule zero = (5, 50)
schedule (suc d) = (6, 60)

-- Of which the execution of domain 1 completes.
abbrev nested : Answers
nested = record {
  schedule = schedule;
  get_subdomain = λ e. if e == 5 then some 1 else none;
  is_empty = λ d. false;
  has_active_execution = λ d. true;
  get_parent_domain = λ d. 0;
  execute = λ e cs. false;
}

nested_run :
    run_once nested 2 0 true false false
    ≡ some (
      true,
      Action.schedules 0
          ∷ Action.schedule_execution 0 5
          ∷ Action.schedules 1
          ∷ Action.schedule_execution 1 6
          ∷ Action.executes 6 (50 ∷ 60 ∷ [])
          ∷ Action.removes_meta 6
          ∷ Action.detach_suspended_execution 1 6
          ∷ Action.detach_execution 1 6
          ∷ [],
    )
unfolding run_once descend execute_top
nested_run = refl

starving_run :
    run_once (record nested { has_active_execution = λ d. d == 0 }) 2 0 false false false
    ≡ some (
      true,
      Action.schedules 0
          ∷ Action.schedule_execution 0 5
          ∷ Action.suspend_current 0 5
          ∷ Action.begins 50
          ∷ Action.ends 50 false
          ∷ [],
    )
unfolding run_once descend execute_top
starving_run = refl

nested_parent :
    (d d' : ℕ)
    → nested.get_subdomain (nested.schedule d).0 ≡ some d'
    → nested.get_parent_domain d' ≡ d
nested_parent zero d' h = refl
nested_parent (suc d) d' h = ground arith

abbrev nested_rank : ℕ → ℕ
nested_rank zero = 1
nested_rank (suc d) = 0

nested_falls :
    (d d' : ℕ)
    → nested.get_subdomain (nested.schedule d).0 ≡ some d'
    → nested_rank d' < nested_rank d
nested_falls zero zero h = ground arith
nested_falls zero (suc d') h = omega arith
nested_falls (suc d) d' h = ground arith

run_once_lem_example :
    (above : List Stop) × (last : Stop) × (f : Finish) × Way nested 0 above last f
    × (run_once nested 2 0 true false false
        ≡ some (
          goes_on f (not true || not (nested.is_empty 0) || false),
          all_calls nested above last f,
        ))
run_once_lem_example =
    run_once_lem nested nested_parent nested_rank nested_falls 0 true false false refl
