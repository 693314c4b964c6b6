-- ===== src/JoinSet.antt =====
-- asco/task/join_set.h: tasks whose outputs come back through a channel.
-- Calls run with no other task in between; a task that the set spawned is seen when it sends its output. The
-- functions of the tasks, and so their outputs, are arguments.
pub mod Outputs
pub mod Joined
mod Examples
use asco.Prelude.{
  ℕ, zero, suc, ◌+◌, ◌-◌, Bool, true, false, Option, none, some, List, [], ◌∷◌, ◌==◌, if◌then◌else◌,
}
use asco.Channel.{Channel, channel, send, recv, stop}
use asco.Channel.Stop.{drain}

-- `join_set`: `tx_rx` are `m_tx` and `m_rx`, the ends of one channel, and `running` the tasks of
-- `m_runtime` that the set spawned and that have not sent their output.
pub record JoinSet {ℓ} (T : Type ℓ) : Type ℓ where
  pub m_task_count : ℕ
  pub tx_rx : Channel T
  pub running : ℕ

module _ {ℓ} {T : Type ℓ} (capacity : ℕ) where
  -- `join_set::join_set`
  abbrev pub join_set : JoinSet T
  join_set = record { m_task_count = 0; tx_rx = channel T capacity; running = 0 }

  -- `spawn`
  abbrev pub spawn : JoinSet T → JoinSet T
  spawn js = record js { m_task_count = js.m_task_count + 1; running = js.running + 1 }

  -- `co_await tx.send(...)` in a task that `spawn` started, whose function returned `v`; it does not
  -- look at the result of `send`. `none`: no such task is left, or it waits for room.
  unfoldable pub task_sends : JoinSet T → T → Option (JoinSet T)
  task_sends js v = if js.running == 0 then none else elim (send capacity js.tx_rx v) [
    | none ↦ none
    | some r ↦ some (record js { tx_rx = r.1; running = js.running - 1 })
  ]

  -- `operator co_await`; `none`: it waits for an output.
  unfoldable pub co_await : JoinSet T → Option (Option T × JoinSet T)
  co_await js = if js.m_task_count == 0 then some (none, js) else elim (recv capacity js.tx_rx) [
    | none ↦ none
    | some r ↦ elim r.0 [
      | none ↦ some (none, record js { tx_rx = r.1 })
      | some v ↦ some (some v, record js { m_task_count = js.m_task_count - 1; tx_rx = r.1 })
    ]
  ]

  -- `join_all`, with at most `n` rounds of its loop
  abbrev pub join_all : ℕ → JoinSet T → List T
  join_all n js = drain capacity n (stop capacity js.tx_rx)
