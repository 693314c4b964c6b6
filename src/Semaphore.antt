-- ===== src/Semaphore.antt =====
-- asco/sync/semaphore.h and the parts of asco/sync/condition_variable.h that it calls, with
-- asco/sync/mutex.h on top.
-- A thread is a task that runs; one that is asleep runs on when its token has left the queue. The
-- critical sections of the queue's spinlock are one step each.
pub mod Mutex
pub mod LostWakeup
mod Examples
use asco.Prelude.{ℕ, zero, suc, ◌+◌, ◌-◌, ◌≤◌, ◌<◌, min, ◌≡◌, ◌≢◌, List, [], ◌∷◌, ◌++◌}
use mathlib.Core.List.{Mem}

-- `m_count` and the queue of `m_cv`, which holds the threads of the tokens.
pub record Memory : Type 0 where
  pub m_count : ℕ
  pub waiters : List ℕ

-- What the loop of `notify` leaves in the queue when it wakes `n`.
abbrev pub awake : ℕ → List ℕ → List ℕ
awake zero q = q
awake (suc n) [] = []
awake (suc n) (x ∷ q) = awake n q

-- Where a thread stands. `i` counts the rounds of `acquire` that found 0, `e` is the local `oldc`, and
-- `n` the argument of `release`.
pub data Pc : Type 0 where
  idle : Pc
  fetch : (i : ℕ) → Pc
  exchange : (i e : ℕ) → Pc
  wait : Pc
  asleep : Pc
  try_fetch : Pc
  try_exchange : (e : ℕ) → Pc
  holds : Pc
  release_load : (n : ℕ) → Pc
  release_notify : (n e : ℕ) → Pc
  release_exchange : (n e : ℕ) → Pc

-- One atomic access to `m_count`, or one critical section of the queue, of a semaphore that counts
-- up to `limit`. The exchanges are weak ones, and may fail for no reason.
pub data Move (limit : ℕ) (i : ℕ) (m : Memory) : Pc → Memory → Pc → Type 0 where
  -- `try_acquire`
  try_acquire : Move limit i m Pc.idle m Pc.try_fetch
  try_refused : m.m_count ≡ 0 → Move limit i m Pc.try_fetch m Pc.idle
  try_loads : m.m_count ≢ 0 → Move limit i m Pc.try_fetch m (Pc.try_exchange m.m_count)
  try_wins :
      {e : ℕ}
      → m.m_count ≡ e
      → Move limit i m (Pc.try_exchange e) (record m { m_count = e - 1 }) Pc.holds
  try_fails : {e : ℕ} → Move limit i m (Pc.try_exchange e) m Pc.try_fetch
  -- `acquire`
  acquire : Move limit i m Pc.idle m (Pc.fetch 0)
  loads : {r : ℕ} → m.m_count ≢ 0 → Move limit i m (Pc.fetch r) m (Pc.exchange r m.m_count)
  spins : {r : ℕ} → m.m_count ≡ 0 → r ≤ 100 → Move limit i m (Pc.fetch r) m (Pc.fetch (r + 1))
  tires : {r : ℕ} → m.m_count ≡ 0 → 100 < r → Move limit i m (Pc.fetch r) m Pc.wait
  wins :
      {r e : ℕ}
      → m.m_count ≡ e
      → Move limit i m (Pc.exchange r e) (record m { m_count = e - 1 }) Pc.holds
  fails : {r e : ℕ} → Move limit i m (Pc.exchange r e) m (Pc.fetch r)
  -- `wait_once`
  wait_spared : m.m_count ≢ 0 → Move limit i m Pc.wait m (Pc.fetch 0)
  sleeps :
      m.m_count ≡ 0 → Move limit i m Pc.wait (record m { waiters = m.waiters ++ i ∷ [] }) Pc.asleep
  resumes : ¬ Mem i m.waiters → Move limit i m Pc.asleep m (Pc.fetch 0)
  -- `release`, by a thread that acquired and by one that did not
  release : (n : ℕ) → Move limit i m Pc.holds m (Pc.release_load n)
  post : (n : ℕ) → Move limit i m Pc.idle m (Pc.release_load n)
  release_loads : {n : ℕ} → Move limit i m (Pc.release_load n) m (Pc.release_notify n m.m_count)
  -- `notify`, with the exchange as its predicate
  no_waiters :
      {n e : ℕ}
      → m.waiters ≡ []
      → Move limit i m (Pc.release_notify n e) m (Pc.release_exchange n e)
  predicate_false :
      {n e : ℕ} → m.waiters ≢ [] → Move limit i m (Pc.release_notify n e) m (Pc.release_load n)
  notifies :
      {n e : ℕ}
      → m.waiters ≢ []
      → m.m_count ≡ e
      → Move limit i m
          (Pc.release_notify n e)
          (record {
            m_count = e + min n (limit - e);
            waiters = awake (min n (limit - e)) m.waiters;
          })
          Pc.idle
  release_wins :
      {n e : ℕ}
      → m.m_count ≡ e
      → Move limit i m
          (Pc.release_exchange n e)
          (record m { m_count = e + min n (limit - e) })
          Pc.idle
  release_fails : {n e : ℕ} → Move limit i m (Pc.release_exchange n e) m (Pc.release_load n)
