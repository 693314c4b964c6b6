-- ===== src/Daemon.antt =====
-- asco/core/daemon.h and .cpp: a thread that runs rounds until it is stopped, and the thread that starts and
-- joins it. Each step is one access to what they share; other threads may call awake at any time.
-- A round is that of `daemon::run_once`, which sleeps; what derived classes do in their rounds besides, and
-- the awake hooks, are left out.
pub mod Joined
mod Examples
use asco.Prelude.{ℕ, ◌+◌, ◌-◌, ◌<◌, ◌≤◌, ◌≡◌, Bool, true, false}

-- Where the daemon's thread stands.
pub data ThreadPc : Type 0 where
  unstarted at_barrier initializing testing sleeping ending finished : ThreadPc

-- Where its owner stands: in `start` up to the destructor of the `init_waiter`, then in `join`.
pub data OwnerPc : Type 0 where
  unstarted at_barrier init_waiting owning awaking joining joined : OwnerPc

-- `arrived` counts the arrivals at the barrier `m_b`.
pub record Daemon : Type 0 where
  pub m_init_sem : ℕ
  pub m_sem : ℕ
  pub arrived : ℕ
  pub stop_requested : Bool
  pub thread : ThreadPc
  pub owner : OwnerPc

abbrev pub daemon : Daemon
daemon = record {
  m_init_sem = 0;
  m_sem = 0;
  arrived = 0;
  stop_requested = false;
  thread = ThreadPc.unstarted;
  owner = OwnerPc.unstarted;
}

pub data Step (d : Daemon) : Daemon → Type 0 where
  -- the lambda of `daemon::start`: `m_b.arrive_and_wait()`
  thread_arrives :
      d.thread ≡ ThreadPc.unstarted
      → Step d (record d { arrived = d.arrived + 1; thread = ThreadPc.at_barrier })
  thread_passes :
      d.thread ≡ ThreadPc.at_barrier
      → 2 ≤ d.arrived
      → Step d (record d { thread = ThreadPc.initializing })
  -- `init()`, and `m_init_sem.release()` whether it succeeds or not
  init_succeeds :
      d.thread ≡ ThreadPc.initializing
      → Step d (record d { m_init_sem = d.m_init_sem + 1; thread = ThreadPc.testing })
  init_fails :
      d.thread ≡ ThreadPc.initializing
      → Step d (record d { m_init_sem = d.m_init_sem + 1; thread = ThreadPc.ending })
  -- the loop's condition, and `run_once`
  runs_once :
      d.thread ≡ ThreadPc.testing
      → d.stop_requested ≡ false
      → Step d (record d { thread = ThreadPc.sleeping })
  stops :
      d.thread ≡ ThreadPc.testing
      → d.stop_requested ≡ true
      → Step d (record d { thread = ThreadPc.ending })
  -- `sleep_until_awake`, and the end of its variants with a time
  awakened :
      d.thread ≡ ThreadPc.sleeping
      → 0 < d.m_sem
      → Step d (record d { m_sem = d.m_sem - 1; thread = ThreadPc.testing })
  times_out : d.thread ≡ ThreadPc.sleeping → Step d (record d { thread = ThreadPc.testing })
  -- `shutdown()`
  shuts_down : d.thread ≡ ThreadPc.ending → Step d (record d { thread = ThreadPc.finished })
  -- `daemon::start`: `m_b.arrive_and_wait()`, and `~init_waiter`
  owner_arrives :
      d.owner ≡ OwnerPc.unstarted
      → Step d (record d { arrived = d.arrived + 1; owner = OwnerPc.at_barrier })
  owner_passes :
      d.owner ≡ OwnerPc.at_barrier
      → 2 ≤ d.arrived
      → Step d (record d { owner = OwnerPc.init_waiting })
  init_awaited :
      d.owner ≡ OwnerPc.init_waiting
      → 0 < d.m_init_sem
      → Step d (record d { m_init_sem = d.m_init_sem - 1; owner = OwnerPc.owning })
  -- `join`: `request_stop()`, `awake()`, and `m_dthread.join()`
  requests_stop :
      d.owner ≡ OwnerPc.owning
      → Step d (record d { stop_requested = true; owner = OwnerPc.awaking })
  awakes_thread :
      d.owner ≡ OwnerPc.awaking → Step d (record d { m_sem = d.m_sem + 1; owner = OwnerPc.joining })
  joins :
      d.owner ≡ OwnerPc.joining
      → d.thread ≡ ThreadPc.finished
      → Step d (record d { owner = OwnerPc.joined })
  -- `awake()`, by any thread
  awakes : Step d (record d { m_sem = d.m_sem + 1 })

pub data Reach (d : Daemon) : Daemon → Type 0 where
  start : Reach d d
  later : {e f : Daemon} → Reach d e → Step e f → Reach d f
