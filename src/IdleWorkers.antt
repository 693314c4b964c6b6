-- ===== src/IdleWorkers.antt =====
-- How spawn of asco/core/runtime.h and the workers of asco/core/worker.cpp meet: the queue of coroutines and the
-- queue of idle workers, with awake and sleep_until_awake of asco/core/daemon.cpp.
-- A thread is a worker or spawns from outside; each step is one access to a queue or to a semaphore. What a
-- worker does with a coroutine is left out, so a worker has no active execution when it looks for one. Both
-- queues have room.
pub mod Missed
mod Examples
use asco.Prelude.{ℕ, ◌+◌, ◌-◌, ◌<◌, ◌≡◌, Option, none, some, List, [], ◌∷◌, ◌++◌, update}

-- The coroutines in the queue, `m_idle_workers`, and `m_sem` of each worker.
pub record Memory : Type 0 where
  pub queue : List ℕ
  pub idle_workers : List ℕ
  pub m_sem : ℕ → ℕ

pub data Pc : Type 0 where
  fetching reporting sleeping : Pc
  executing : (h : ℕ) → Pc
  outside awaking : Pc
  releasing : (worker : ℕ) → Pc

pub data Move (i : ℕ) (m : Memory) : Pc → Memory → Pc → Type 0 where
  -- `worker::run_once`: `fetch_task()`
  fetches :
      {h : ℕ} {rest : List ℕ}
      → m.queue ≡ h ∷ rest
      → Move i m Pc.fetching (record m { queue = rest }) (Pc.executing h)
  finds_none : m.queue ≡ [] → Move i m Pc.fetching m Pc.reporting
  executes : {h : ℕ} → Move i m (Pc.executing h) m Pc.fetching
  -- `m_idle_workers_tx.try_send(m_id)`
  reports : Move i m Pc.reporting (record m { idle_workers = m.idle_workers ++ i ∷ [] }) Pc.sleeping
  -- `sleep_until_awake()`
  awakened :
      0 < m.m_sem i
      → Move i m Pc.sleeping (record m { m_sem = update m.m_sem i (m.m_sem i - 1) }) Pc.fetching
  -- `runtime::spawn`: `m_coroutine_tx.try_send`, with room in the queue
  spawns : (h : ℕ) → Move i m Pc.outside (record m { queue = m.queue ++ h ∷ [] }) Pc.awaking
  -- `awake_next()`
  finds_idle :
      {w : ℕ} {rest : List ℕ}
      → m.idle_workers ≡ w ∷ rest
      → Move i m Pc.awaking (record m { idle_workers = rest }) (Pc.releasing w)
  finds_no_idle : m.idle_workers ≡ [] → Move i m Pc.awaking m Pc.outside
  awakes :
      {w : ℕ}
      → Move i m (Pc.releasing w) (record m { m_sem = update m.m_sem w (m.m_sem w + 1) }) Pc.outside
