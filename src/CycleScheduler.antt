-- ===== src/CycleScheduler.antt =====
-- asco/core/task/cycle_scheduler.h: a round-robin scheduler of at most `n` executions, with the states
-- that it sets in its execution domain.
-- An execution's id is a number, 0 for the null handle. What `awake_execution` does for the domain's
-- parent is a call of the parent's own scheduler: a parameter on a state of its own.
pub mod Rounds
pub mod Wakeups
mod Examples
use asco.Prelude.{
  ℕ, zero, suc, ◌+◌, ◌-◌, ◌%◌, ◌^◌, Bool, true, false, ◌&&◌, ◌||◌, not, Option, none, some, update,
  ltb, ◌==◌, if◌then◌else◌,
}
use asco.Murmur.{u64}

-- `execution_state`
pub data State : Type 0 where
  active running suspended : State

-- `execution_sched`; the context is the slot itself.
pub record Slot : Type 0 where
  pub id : ℕ
  pub active : Bool
  pub suspend_now : Bool
  pub preawaken : Bool
  pub detached : Bool

pub record Scheduler (P : Type 0) : Type 0 where
  pub m_current : ℕ
  pub m_executions : ℕ → Slot
  pub m_fill_index : ℕ
  pub m_active_count : ℕ
  pub m_detached_count : ℕ
  pub m_index_map : ℕ → ℕ × ℕ
  pub domain : ℕ → State
  pub parent : P

-- The loop over `m_execution_index_map` from entry `i`, with `k` entries left.
unfoldable pub find_from : (ℕ → ℕ × ℕ) → ℕ → ℕ → ℕ → Option ℕ
find_from entries id zero i = none
find_from entries id (suc k) i =
    let rest = find_from entries id k (i + 1) in
    if (entries i).0 == id then some (entries i).1 else rest

module _ {P : Type 0} (n : ℕ) where
  abbrev pub find : Scheduler P → ℕ → Option ℕ
  find s id = find_from s.m_index_map id n 0

  -- `none` is the failed assertion.
  unfoldable pub attach_execution : Scheduler P → ℕ → Option (Scheduler P)
  attach_execution s id =
      if ltb s.m_fill_index n
      then some (record s {
        m_executions = update s.m_executions s.m_fill_index (record {
          id = id;
          active = true;
          suspend_now = false;
          preawaken = false;
          detached = false;
        });
        m_index_map = update s.m_index_map s.m_fill_index (id, s.m_fill_index);
        m_active_count = u64 (s.m_active_count + 1);
        m_fill_index = u64 (s.m_fill_index + 1);
      })
      else none

  unfoldable pub detach_suspended_execution : Scheduler P → ℕ → Option (Scheduler P)
  detach_suspended_execution s id = elim (find s id) [
    | none ↦ some s
    | some i ↦
        if (s.m_executions i).active
        then none
        else some (record s {
          m_executions =
              update s.m_executions i (record (s.m_executions i) { id = 0; detached = true });
          m_detached_count = u64 (s.m_detached_count + 1);
        })
  ]

  -- The part of `awake_execution` before the parent's.
  unfoldable pub awake_own : Scheduler P → ℕ → Scheduler P
  awake_own s id = elim (find s id) [
    | none ↦ s
    | some i ↦
        if (s.m_executions i).active
        then record s {
          m_executions = update s.m_executions i (record (s.m_executions i) { preawaken = true });
        }
        else record s {
          m_executions =
              update s.m_executions i
                (record (s.m_executions i) { suspend_now = false; active = true });
          m_active_count = u64 (s.m_active_count + 1);
          domain = update s.domain id State.active;
        }
  ]

  unfoldable pub awake_execution : (P → P) → Scheduler P → ℕ → Scheduler P
  awake_execution awake_parent s id =
      let s' = awake_own s id in record s' { parent = awake_parent s'.parent }

  unfoldable pub suspend_current : Scheduler P → ℕ → Scheduler P
  suspend_current s id = elim (find s id) [
    | none ↦ s
    | some i ↦
        if (s.m_executions i).preawaken
        then record s {
          m_executions = update s.m_executions i (record (s.m_executions i) { preawaken = false });
        }
        else record s {
          m_executions = update s.m_executions i (record (s.m_executions i) { suspend_now = true });
          domain = update s.domain id State.suspended;
        }
  ]

  -- `cycle_context::end` of slot `i`
  unfoldable pub end : Scheduler P → ℕ → Bool → Scheduler P
  end s i completed =
      let e = s.m_executions i in
      if (e.suspend_now && not e.preawaken) || completed
      then record s {
        m_executions = update s.m_executions i (record e { active = false; suspend_now = false });
        m_active_count = u64 (s.m_active_count + 2 ^ 64 - 1);
        domain = update s.domain e.id State.suspended;
      }
      else record s {
        m_executions = update s.m_executions i (record e { suspend_now = false });
        domain = update s.domain e.id State.active;
      }

  abbrev pub skips : Scheduler P → ℕ → Bool
  skips s c = (s.m_executions (c % n)).detached || not (s.m_executions (c % n)).active

  -- `schedule` for `k` rounds: the slot that is chosen.
  unfoldable pub schedule : ℕ → Scheduler P → Option (ℕ × Scheduler P)
  schedule zero s = none
  schedule (suc k) s =
      let rest = schedule k (record s { m_current = u64 (s.m_current + 1) }) in
      if skips s s.m_current
      then rest
      else some (s.m_current % n, record s { m_current = u64 (s.m_current + 1) })
