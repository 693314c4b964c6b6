-- ===== src/Executor/Examples.antt =====
-- An execution with two coroutines and two callbacks, whose outer source is cancelled.
use asco.Prelude.{◌≡◌, refl, sym, append-nil, true, false, none, some, [], ◌∷◌, ◌==◌, if◌then◌else◌}
use asco.CycleScheduler.{State}
use asco.ExecutionDomain.{Execution}
use asco.Executor.{World, any_requested, cancel_cleanup, execute}
use asco.Executor.Cleanup.{CleanedUp, cancel_cleanup-CleanedUp}
use asco.Executor.Turn.{Turn, execute-Turn}

abbrev nested : Execution
nested = record {
  handle_stack = 8 ∷ 7 ∷ [];
  cancel_src_stack = 1 ∷ 2 ∷ [];
  cancel_callback_stack = 5 ∷ 4 ∷ [];
  state = State.running;
}

abbrev world : World
world = record {
  domain = record {
    m_execution_list = 7 ∷ [];
    m_executions = λ id. if id == 7 then some nested else none;
    m_corohandle_exec_map = λ h. if h == 8 then some 7 else if h == 7 then some 7 else none;
  };
  requested = λ source. source == 1;
  log = [];
}

cancel_cleanup-CleanedUp_example :
    (any_requested world.requested (1 ∷ 2 ∷ []) ≡ true → CleanedUp (1 ∷ 2 ∷ []) world 7 nested)
    × (any_requested world.requested (1 ∷ 2 ∷ []) ≡ false
        → cancel_cleanup (1 ∷ 2 ∷ []) world 7 ≡ some (false, world))
cancel_cleanup-CleanedUp_example = cancel_cleanup-CleanedUp (1 ∷ 2 ∷ []) world 7 nested refl

execute-Turn_example : Turn world 7 8 (3 ∷ 6 ∷ []) (execute (λ h v. v) world 7 (3 ∷ 6 ∷ []))
execute-Turn_example =
    execute-Turn (λ h v. v) 7 8 (3 ∷ 6 ∷ []) world nested (7 ∷ []) refl refl
      (λ v there. (nested, there, [], sym (append-nil v.log)))
