-- ===== src/ExecutionDomain/Examples.antt =====
-- Execution 7, which calls coroutine 8.
use asco.Prelude.{ℕ, ◌≡◌, refl, ◌⊎◌, ◌≤◌, ◌↔◌, some, none, List, [], ◌∷◌, ℕ_discrete, update}
use asco.CycleScheduler.{State}
use asco.ExecutionDomain.{
  Execution, Domain, front, stack_of, attach_execution, push_handle, execution_of_coroutine,
}
use asco.ExecutionDomain.Stacks.{occurrences}
use asco.ExecutionDomain.Calls.{
  new, Calls, none_yet, and_then, attaches, pushes, execution_of_coroutine_lem,
}

abbrev seven : List ℕ → Execution
seven stack = record {
  handle_stack = stack;
  cancel_src_stack = 1 ∷ [];
  cancel_callback_stack = [];
  state = State.active;
}

abbrev one : Domain
one = record {
  m_execution_list = 7 ∷ [];
  m_executions = update new.m_executions 7 (some (seven (7 ∷ [])));
  m_corohandle_exec_map = update new.m_corohandle_exec_map 7 (some 7);
}

abbrev called : Domain
called = record {
  m_execution_list = 7 ∷ [];
  m_executions = update one.m_executions 7 (some (seven (8 ∷ 7 ∷ [])));
  m_corohandle_exec_map = update one.m_corohandle_exec_map 8 (some 7);
}

attached : attach_execution 4 new 7 [] 1 ≡ some one
unfolding attach_execution
attached = refl

pushed : push_handle one 7 8 ≡ some called
unfolding push_handle ℕ_discrete
pushed = refl

there : one.m_executions 7 ≡ some (seven (7 ∷ []))
unfolding ℕ_discrete
there = refl

fresh : one.m_corohandle_exec_map 8 ≡ none
unfolding ℕ_discrete
fresh = refl

calls : Calls new called
calls =
    and_then (and_then none_yet (attaches 4 7 [] 1 refl refl attached))
      (pushes 7 8 7 [] (seven (7 ∷ [])) there refl fresh pushed)

execution_of_coroutine_lem_example :
    ((occurrences 8 (stack_of called 7) ≡ 1) ↔ (execution_of_coroutine called 8 ≡ some 7))
    × (occurrences 8 (stack_of called 7) ≤ 1)
    × ((stack_of called 7 ≡ []) ⊎ (front (stack_of called 7) ≡ some 7))
execution_of_coroutine_lem_example = execution_of_coroutine_lem 7 8 calls
