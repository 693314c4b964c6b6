-- ===== src/Worker.antt =====
-- asco/core/worker.cpp: one round of a worker, which goes down through nested execution domains to the
-- coroutine that it resumes.
-- Domains, executions and contexts are numbers. What the schedulers, the domains and the executor answer in the
-- round is a parameter, through the interfaces of asco/core/task/scheduler.h and execution_domain.h, and what the
-- round does to them is the list of its calls. A domain is scheduled at most once in a round.
pub mod Way
pub mod Turn
mod Examples
use asco.Prelude.{
  ℕ, zero, suc, Bool, true, false, not, ◌&&◌, ◌||◌, Option, none, some, List, [], ◌∷◌, ◌++◌,
  if◌then◌else◌,
}

pub data Action : Type 0 where
  schedules : (domain : ℕ) → Action
  schedule_execution : (domain execution : ℕ) → Action
  remove_subdomain : (execution : ℕ) → Action
  suspend_current : (domain execution : ℕ) → Action
  executes : (execution : ℕ) → (contexts : List ℕ) → Action
  removes_meta : (execution : ℕ) → Action
  detach_suspended_execution detach_execution : (domain execution : ℕ) → Action
  begins : (context : ℕ) → Action
  ends : (context : ℕ) → (completed : Bool) → Action
  reports_idle sleeps : Action

-- The answers: of `schedule()` of a domain's scheduler, `get_subdomain()` of an execution, `is_empty()`,
-- `has_active_execution()` and `get_parent_domain()` of a domain, and `execute` of an execution.
pub record Answers : Type 0 where
  pub schedule : ℕ → ℕ × ℕ
  pub get_subdomain : ℕ → Option ℕ
  pub is_empty : ℕ → Bool
  pub has_active_execution : ℕ → Bool
  pub get_parent_domain : ℕ → ℕ
  pub execute : ℕ → List ℕ → Bool

-- `m_domain_stack`, `m_context_stack` and `m_sexec_stack`, their tops last, and the calls so far.
pub record Stacks : Type 0 where
  pub domains : List ℕ
  pub contexts : List ℕ
  pub sexecs : List (ℕ × ℕ)
  pub calls : List Action

-- `back()`
abbrev pub back : ℕ → List ℕ → ℕ
back d [] = d
back d (x ∷ xs) = back x xs

abbrev pub begin_all : List ℕ → List Action
begin_all [] = []
begin_all (c ∷ cs) = Action.begins c ∷ begin_all cs

abbrev pub end_all : List ℕ → List Action
end_all [] = []
end_all (c ∷ cs) = end_all cs ++ Action.ends c false ∷ []

-- `exit_stack`: the calls, after which the stacks are empty.
abbrev pub exit_stack : Stacks → Bool → List Action
exit_stack s executed =
    if executed then s.calls else s.calls ++ (begin_all s.contexts ++ end_all s.contexts)

-- Whether `run_once` has returned true, or goes on at `executed_once`.
pub data Exit : Type 0 where
  returned executed_once : (calls : List Action) → Exit

module _ (a : Answers) where
  -- After the loop.
  unfoldable pub execute_top : Stacks → ℕ → Exit
  execute_top s exec =
      let ran = s.calls ++ Action.executes exec s.contexts ∷ [] in
      let domain = back 0 s.domains in
      Exit.executed_once (
        if a.execute exec s.contexts
        then ran
        else ran
          ++ Action.removes_meta exec
            ∷ Action.detach_suspended_execution domain exec
            ∷ Action.detach_execution domain exec
            ∷ [])

  -- The loop from `current_domain` on, for at most `k` rounds; `none`: they were too few.
  unfoldable pub descend : ℕ → ℕ → Stacks → Option Exit
  unfolding execute_top
  descend zero d s = none
  descend (suc k) d s =
      let (exec, ctx) = a.schedule d in
      let s' : Stacks = record {
        domains = s.domains;
        contexts = s.contexts ++ ctx ∷ [];
        sexecs = s.sexecs ++ (d, exec) ∷ [];
        calls = s.calls ++ Action.schedules d ∷ Action.schedule_execution d exec ∷ [];
      } in
      elim (a.get_subdomain exec) [
        | none ↦ some (execute_top s' exec)
        | some d' ↦
            let deeper : Stacks = record s' { domains = s'.domains ++ d' ∷ [] } in
            let rest = descend k d' deeper in
            if a.is_empty d'
            then some (
                Exit.returned (
                  exit_stack (record s' { calls = s'.calls ++ Action.remove_subdomain exec ∷ [] })
                    false))
            else if a.has_active_execution d'
            then rest
            else some (
                Exit.executed_once (
                  exit_stack
                    (record deeper {
                      calls =
                          deeper.calls ++ Action.suspend_current (a.get_parent_domain d') exec ∷ [];
                    })
                    false))
      ]

  -- `run_once` on the worker's own domain `root`, for at most `k` nested domains. `fetched` and
  -- `fetched_again` are the results of its two calls of `fetch_task`.
  unfoldable pub run_once :
      ℕ → ℕ → (stop_requested fetched fetched_again : Bool) → Option (Bool × List Action)
  unfolding descend
  run_once k root stop_requested fetched fetched_again =
      let goes_on = not stop_requested || not (a.is_empty root) || fetched_again in
      if not fetched && not (a.has_active_execution root)
      then some (true, Action.reports_idle ∷ Action.sleeps ∷ [])
      else if a.has_active_execution root
      then elim (descend k root
          (record { domains = root ∷ []; contexts = []; sexecs = []; calls = [] })) [
            | none ↦ none
            | some (Exit.returned calls) ↦ some (true, calls)
            | some (Exit.executed_once calls) ↦ some (goes_on, calls)
          ]
      else some (goes_on, [])
