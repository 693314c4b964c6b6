-- ===== src/Executor.antt =====
-- asco/core/task/executor.cpp, with cancel_source::invoke_callbacks of asco/core/cancellation.cpp: one turn of an
-- execution.
-- What a coroutine does between `resume` and its next suspension is a parameter. A callback leaves the stack of
-- callbacks alone.
pub mod Cleanup
pub mod Turn
mod Examples
use asco.Prelude.{
  ℕ, zero, suc, Bool, true, false, not, ◌||◌, Option, none, some, List, [], ◌∷◌, ◌++◌, length,
  if◌then◌else◌,
}
use asco.ExecutionDomain.{Execution, Domain, put, stack_of, pop_handle}

-- What can be seen from outside, in order.
pub data Event : Type 0 where
  begins : (ctx : ℕ) → Event
  ends : (ctx : ℕ) → (completed : Bool) → Event
  calls : (callback : ℕ) → Event
  resumes destroys : (handle : ℕ) → Event

-- `requested` is `cancel_requested` of a source's token.
pub record World : Type 0 where
  pub domain : Domain
  pub requested : ℕ → Bool
  pub log : List Event

abbrev pub note : World → Event → World
note w x = record w { log = w.log ++ x ∷ [] }

abbrev pub any_requested : (ℕ → Bool) → List ℕ → Bool
any_requested requested [] = false
any_requested requested (source ∷ sources) = requested source || any_requested requested sources

-- The loop of `invoke_callbacks`, with the callbacks that are left.
unfoldable pub invoke_from : List ℕ → World → World
invoke_from [] w = w
invoke_from (callback ∷ callbacks) w = invoke_from callbacks (note w (Event.calls callback))

unfoldable pub invoke_callbacks : World → ℕ → Execution → World
invoke_callbacks w id e =
    let w' = invoke_from e.cancel_callback_stack w in
    record w' { domain = put w'.domain id (record e { cancel_callback_stack = [] }) }

-- The loop over `handle_stack`, for at most `k` coroutines.
unfoldable pub destroy_all : ℕ → World → ℕ → Option World
destroy_all zero w id = some w
destroy_all (suc k) w id = elim (pop_handle w.domain id) [
  | none ↦ none
  | some (none, d) ↦ some w
  | some (some h, d) ↦ destroy_all k (note (record w { domain = d }) (Event.destroys h)) id
]

-- `none` is a failed assertion.
unfoldable pub cancel_cleanup : List ℕ → World → ℕ → Option (Bool × World)
cancel_cleanup sources w id = elim (w.domain.m_executions id) [
  | none ↦ none
  | some e ↦
      if any_requested w.requested sources
      then elim (destroy_all (length e.handle_stack) (invoke_callbacks w id e) id) [
        | none ↦ none
        | some w' ↦ some (true, w')
      ]
      else some (false, w)
]

abbrev pub begin_all : List ℕ → List Event
begin_all [] = []
begin_all (ctx ∷ ctxs) = Event.begins ctx ∷ begin_all ctxs

-- The contexts, with the innermost last, end in reverse; it alone is told that the execution completed.
abbrev pub end_all : List ℕ → Bool → List Event
end_all [] completed = []
end_all (ctx ∷ []) completed = Event.ends ctx completed ∷ []
end_all (ctx ∷ ctx' ∷ ctxs) completed = end_all (ctx' ∷ ctxs) completed ++ Event.ends ctx false ∷ []

abbrev pub exit_stack : List ℕ → Bool → World → World
exit_stack ctxs completed w = record w { log = w.log ++ end_all ctxs completed }

module _ (resume : ℕ → World → World) where
  -- The part of `execute` from the second `cancel_cleanup` on.
  unfoldable pub after_resume : List ℕ → World → ℕ → List ℕ → Option (Bool × World)
  after_resume sources w id ctxs = elim (cancel_cleanup sources w id) [
    | none ↦ none
    | some (true, w') ↦ some (false, exit_stack ctxs true w')
    | some (false, w') ↦ elim (stack_of w'.domain id) [
      | [] ↦ some (false, exit_stack ctxs true w')
      | _ ∷ _ ↦ some (true, exit_stack ctxs false w')
    ]
  ]

  unfoldable pub execute : World → ℕ → List ℕ → Option (Bool × World)
  execute w id ctxs = elim (w.domain.m_executions id) [
    | none ↦ none
    | some e ↦ elim e.handle_stack [
      | [] ↦ some (false, w)
      | h ∷ _ ↦
          elim (cancel_cleanup e.cancel_src_stack (record w { log = w.log ++ begin_all ctxs }) id) [
            | none ↦ none
            | some (true, w') ↦ some (false, exit_stack ctxs true w')
            | some (false, w') ↦
                after_resume e.cancel_src_stack (resume h (note w' (Event.resumes h))) id ctxs
          ]
    ]
  ]
