-- ===== src/Runtime.antt =====
-- asco/core/runtime.h and .cpp, with fetch_task of asco/core/worker.cpp: the queue through which coroutines get from
-- the runtime to its workers, and the semaphore of its free places.
-- A coroutine is its handle, a number. The queue is the list that RingQueue shows the ring to be.
pub mod Spawned
mod Examples
use asco.Prelude.{
  ℕ, zero, suc, ◌+◌, Bool, true, false, Option, none, some, List, [], ◌∷◌, ◌++◌, ◌==◌,
  if◌then◌else◌,
}
use asco.Channel.{try_send}

-- `coroutine_queue_capacity`
abbrev pub coroutine_queue_capacity : ℕ
coroutine_queue_capacity = 1024

-- `m_backsem_sync`, the queue, and the coroutines that workers have attached to their domains.
pub record Runtime : Type 0 where
  pub m_backsem_sync : ℕ
  pub queue : List ℕ
  pub attached : List ℕ

-- The number of workers for the number that was asked for.
unfoldable pub threads : ℕ → ℕ → ℕ
threads nthreads hardware_concurrency =
    if nthreads == 0
    then (if hardware_concurrency == 0 then 1 else hardware_concurrency)
    else nthreads

module _ (capacity : ℕ) where
  -- `runtime::runtime`
  abbrev pub started : Runtime
  started = record { m_backsem_sync = capacity; queue = []; attached = [] }

  -- `worker::fetch_task`
  unfoldable pub fetch_task : Runtime → Bool × Runtime
  fetch_task r = elim r.queue [
    | [] ↦ (false, r)
    | h ∷ rest ↦ (
      true,
      record {
        m_backsem_sync = r.m_backsem_sync + 1;
        queue = rest;
        attached = r.attached ++ h ∷ [];
      },
    )
  ]

  -- `m_coroutine_tx.try_send`, whose result is not looked at
  abbrev pub send : Runtime → ℕ → Runtime
  send r h = record r { queue = try_send capacity r.queue h }

  -- `spawn`, `spawn_blocking` and `block_on` from outside of the runtime; `none`: the call waits for a place.
  unfoldable pub spawn_outside : Runtime → ℕ → Option Runtime
  spawn_outside r h = elim r.m_backsem_sync [
    | zero ↦ none
    | suc b ↦ some (send (record r { m_backsem_sync = b }) h)
  ]

  -- `spawn` and `spawn_blocking` from a task of the runtime
  unfoldable pub spawn_inside : Runtime → ℕ → Runtime
  spawn_inside r h = elim r.m_backsem_sync [
    | zero ↦ send (fetch_task r).1 h
    | suc b ↦ send (record r { m_backsem_sync = b }) h
  ]
