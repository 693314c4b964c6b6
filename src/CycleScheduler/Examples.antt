-- ===== src/CycleScheduler/Examples.antt =====
-- Two executions, of which the second can run.
use asco.Prelude.{ℕ, ◌≡◌, refl, arith, Bool, true, false, some, if◌then◌else◌, ◌==◌}
use asco.CycleScheduler.{State, Slot, Scheduler, find, find_from, schedule}
use asco.CycleScheduler.Rounds.{Scheduled, schedule_lem}

abbrev slot : ℕ → Bool → Slot
slot id on = record {
  id = id;
  active = on;
  suspend_now = false;
  preawaken = false;
  detached = false;
}

abbrev two : Scheduler (Unit {0})
two = record {
  m_current = 0;
  m_executions = λ i. if i == 0 then slot 7 false else slot 9 true;
  m_fill_index = 2;
  m_active_count = 1;
  m_detached_count = 0;
  m_index_map = λ i. if i == 0 then (7, 0) else (9, 1);
  domain = λ id. if id == 7 then State.suspended else State.active;
  parent = tt;
}

find_nine : find 2 two 9 ≡ some 1
unfolding find_from
find_nine = refl

schedule_lem_example : Scheduled 2 two (schedule 2 2 two)
schedule_lem_example = schedule_lem 2 two (omega arith) 1 (omega arith) refl refl
