-- ===== src/DynprioScheduler/Examples.antt =====
-- Two executions, of which one runs.
use asco.Prelude.{ℕ, refl, arith, Bool, false, Option, none, some, [], ◌∷◌, ◌==◌, if◌then◌else◌}
use mathlib.Core.Option
use asco.CycleScheduler.{State}
use asco.DynprioScheduler.{Execution, Scheduler, awake_execution, suspend_current, schedule}
use asco.DynprioScheduler.Queue.{top_pop, top_pop-IsPriorityQueue}
use asco.DynprioScheduler.Places.{Phase, Places}
use asco.DynprioScheduler.Rounds.{
  Scheduled, schedule_lowest, none_yet, and_then, awakes, calls-Places,
}
use asco.DynprioScheduler.Wakeups.{ReadyAfter, ended, wakeup_kept}

abbrev entry : ℕ → ℕ → Execution
entry id priority = record { id = id; priority = priority }

abbrev both : ℕ → Option ℕ
both id = if id == 7 then some 0 else if id == 9 then some 0 else none

abbrev waiting : Scheduler (Unit {0})
waiting = record {
  m_current_execution = entry 0 0;
  m_current_suspend = false;
  m_active_executions = entry 7 30 ∷ entry 9 20 ∷ [];
  m_suspended_executions = λ _. false;
  m_preawake_executions = λ _. false;
  m_exec_ctx_map = both;
  domain = λ _. State.active;
  parent = tt;
}

abbrev one_runs : Bool → Scheduler (Unit {0})
one_runs asked = record waiting {
  m_current_execution = entry 9 20;
  m_active_executions = entry 7 30 ∷ [];
  m_current_suspend = asked;
}

waiting-Places : Places Phase.between waiting
waiting-Places = record { places = λ id. ground arith }

one_runs-Places : (asked : Bool) → Places (Phase.running 9) (one_runs asked)
one_runs-Places asked = record { places = λ id. ground arith }

schedule_lowest_example :
    Scheduled top_pop top_pop-IsPriorityQueue waiting (schedule top_pop waiting)
schedule_lowest_example =
    schedule_lowest top_pop top_pop-IsPriorityQueue waiting refl waiting-Places

calls-Places_example : Places Phase.between (awake_execution (λ p. p) waiting 9)
calls-Places_example =
    calls-Places top_pop top_pop-IsPriorityQueue (and_then none_yet (awakes (λ p. p) 9))
      waiting-Places

abbrev u : Scheduler (Unit {0})
u = one_runs false

wakeup_kept_example :
    ReadyAfter 9 (
      Option.map
        (ended u 9 (one_runs-Places false) (λ p. p) 50 refl refl)
        (suspend_current (awake_execution (λ p. p) u 9) 9))
    × ReadyAfter 9 (
        Option.map
          (λ t.
            ended u 9 (one_runs-Places false) (λ p. p) 50 refl refl (awake_execution (λ p. p) t 9))
          (suspend_current u 9))
    × ReadyAfter 9 (
        Option.map
          (λ t.
            awake_execution (λ p. p) (ended u 9 (one_runs-Places false) (λ p. p) 50 refl refl t) 9)
          (suspend_current u 9))
wakeup_kept_example = wakeup_kept u 9 (one_runs-Places false) (λ p. p) 50 refl refl
