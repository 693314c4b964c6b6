-- ===== src/DynprioScheduler.antt =====
-- asco/core/task/dynprio_scheduler.h and .cpp: a scheduler that runs the execution with the lowest
-- priority number first, with the states that it sets in its execution domain.
-- An execution's id is a number. The two hash sets and the hash map are the sets and the map that
-- HashMap shows its tables to be; std::priority_queue, the time stamps and what `awake_execution` does for the
-- domain's parent are parameters.
pub mod Queue
pub mod Places
pub mod Rounds
pub mod Wakeups
mod Examples
use asco.Prelude.{
  ℕ, ◌+◌, ◌-◌, ◌^◌, Bool, true, false, ◌&&◌, ◌||◌, not, Option, none, some, List, [], ◌∷◌, update,
  ◌==◌, ltb, if◌then◌else◌,
}
use asco.Murmur.{u64}
use asco.CycleScheduler.{State}

-- `prioritied_execution`
pub record Execution : Type 0 where
  pub id : ℕ
  pub priority : ℕ

-- `a < b`, by which std::priority_queue puts `b` before `a`.
abbrev pub less : Execution → Execution → Bool
less a b = ltb b.priority a.priority

-- `m_exec_ctx_map` holds the `m_begin` of each context; the rest of a context is the scheduler and the
-- key.
pub record Scheduler (P : Type 0) : Type 0 where
  pub m_current_execution : Execution
  pub m_current_suspend : Bool
  pub m_active_executions : List Execution
  pub m_suspended_executions : ℕ → Bool
  pub m_preawake_executions : ℕ → Bool
  pub m_exec_ctx_map : ℕ → Option ℕ
  pub domain : ℕ → State
  pub parent : P

abbrev pub contains : (ℕ → Option ℕ) → ℕ → Bool
contains map id = elim (map id) [ none ↦ false | some _ ↦ true ]

module _ {P : Type 0} where
  -- `none` is the failed assertion.
  unfoldable pub attach_execution : Scheduler P → ℕ → Option (Scheduler P)
  attach_execution s id =
      if contains s.m_exec_ctx_map id
      then none
      else some (record s {
        m_exec_ctx_map = update s.m_exec_ctx_map id (some 0);
        m_active_executions = record { id = id; priority = 0 } ∷ s.m_active_executions;
      })

  unfoldable pub detach_suspended_execution : Scheduler P → ℕ → Scheduler P
  detach_suspended_execution s id =
      if s.m_suspended_executions id
      then record s {
        m_suspended_executions = update s.m_suspended_executions id false;
        m_exec_ctx_map = update s.m_exec_ctx_map id none;
      }
      else s

  -- The part of `awake_execution` before the parent's.
  unfoldable pub awake_own : Scheduler P → ℕ → Scheduler P
  awake_own s id =
      if s.m_suspended_executions id
      then record s {
        m_suspended_executions = update s.m_suspended_executions id false;
        m_active_executions = record { id = id; priority = 0 } ∷ s.m_active_executions;
        domain = update s.domain id State.active;
      }
      else record s { m_preawake_executions = update s.m_preawake_executions id true }

  unfoldable pub awake_execution : (P → P) → Scheduler P → ℕ → Scheduler P
  awake_execution awake_parent s id =
      let s' = awake_own s id in
      if contains s.m_exec_ctx_map id then record s' { parent = awake_parent s'.parent } else s

  -- `none` is the failed assertion.
  unfoldable pub suspend_current : Scheduler P → ℕ → Option (Scheduler P)
  suspend_current s id =
      if s.m_current_execution.id == id
      then some (
          if contains s.m_exec_ctx_map id
          then if s.m_preawake_executions id
            then record s { m_preawake_executions = update s.m_preawake_executions id false }
            else record s { domain = update s.domain id State.suspended; m_current_suspend = true }
          else s)
      else none

  -- `dynprio_context::begin` at the time `now`
  unfoldable pub begin : Scheduler P → ℕ → ℕ → Scheduler P
  begin s id now = record s { m_exec_ctx_map = update s.m_exec_ctx_map id (some now) }

  -- The test of `dynprio_context::end`, which takes the execution out of the pre-woken ones.
  unfoldable pub end_test : Scheduler P → ℕ → Bool → Bool × Scheduler P
  end_test s id completed = (
    (s.m_current_suspend && not (s.m_preawake_executions id)) || completed,
    if s.m_current_suspend
        then record s { m_preawake_executions = update s.m_preawake_executions id false }
        else s,
  )

  -- The branches of `dynprio_context::end`, with the time that the execution ran.
  unfoldable pub end_branch : Bool → Scheduler P → ℕ → ℕ → Scheduler P
  end_branch stop s id exec_time =
      if stop
      then record s {
        m_suspended_executions = update s.m_suspended_executions id true;
        domain = update s.domain id State.suspended;
        m_current_suspend = false;
      }
      else record s {
        m_suspended_executions = update s.m_suspended_executions id false;
        m_active_executions =
            record { id = id; priority = u64 (s.m_current_execution.priority + exec_time) }
            ∷ s.m_active_executions;
        domain = update s.domain id State.active;
        m_current_suspend = false;
      }

  -- `end - m_begin`
  unfoldable pub time_since : Scheduler P → ℕ → ℕ → ℕ
  time_since s id now = elim (s.m_exec_ctx_map id) [
    | none ↦ 0
    | some start ↦ u64 (now + 2 ^ 64 - start)
  ]

  -- `dynprio_context::end` at the time `now`
  unfoldable pub end : Scheduler P → ℕ → ℕ → Bool → Scheduler P
  end s id now completed =
      let (stop, s') = end_test s id completed in end_branch stop s' id (time_since s id now)

  -- `schedule`, with `top` and `pop` of the queue together; `none` is the failed assertion, or an
  -- execution without a context.
  unfoldable pub schedule :
      (List Execution → Option (Execution × List Execution))
      → Scheduler P
      → Option (ℕ × Scheduler P)
  schedule top_pop s = elim (top_pop s.m_active_executions) [
    | none ↦ none
    | some (e, rest) ↦
        if contains s.m_exec_ctx_map e.id
        then some (e.id, record s { m_current_execution = e; m_active_executions = rest })
        else none
  ]

  abbrev pub has_active_execution : Scheduler P → Bool
  has_active_execution s = elim s.m_active_executions [ [] ↦ false | _ ∷ _ ↦ true ]
