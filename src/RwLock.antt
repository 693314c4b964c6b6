-- ===== src/RwLock.antt =====
-- asco/sync/rwlock.h: a reader-writer lock whose tasks sleep in two condition variables.
-- A thread is a task that runs; one that is asleep runs on when its token has left the queue. The
-- critical sections of a queue's spinlock are one step each.
pub mod Exclusion
pub mod LostWakeup
pub mod Typed
mod Examples
use asco.Prelude.{
  ℕ, ◌+◌, ◌-◌, ◌*◌, ◌/◌, ◌%◌, ◌^◌, ◌≡◌, ◌≢◌, ◌==◌, if◌then◌else◌, List, [], ◌∷◌, ◌++◌,
}
use asco.Murmur.{u64}
use mathlib.Core.List.{Mem}

abbrev pub update_willing_mask : ℕ
update_willing_mask = 2 ^ 61

abbrev pub write_willing_mask : ℕ
write_willing_mask = 2 ^ 62

abbrev pub write_mask : ℕ
write_mask = 2 ^ 63

-- `e & ~(write_mask | write_willing_mask)`
abbrev pub unwritten : ℕ → ℕ
unwritten e = e % 2 ^ 62

-- `e & (write_mask | write_willing_mask)`, as a test against 0
abbrev pub written : ℕ → ℕ
written e = e / 2 ^ 62

-- `e & (update_willing_mask | write_willing_mask)`, as a test against 0
abbrev pub willing : ℕ → ℕ
willing e = e / 2 ^ 61 % 4

-- `e | write_willing_mask`
abbrev pub with_willing : ℕ → ℕ
with_willing e = if e / 2 ^ 62 % 2 == 0 then e + 2 ^ 62 else e

-- `e | update_willing_mask`
abbrev pub with_updating : ℕ → ℕ
with_updating e = if e / 2 ^ 61 % 2 == 0 then e + 2 ^ 61 else e

-- `e | write_mask`
abbrev pub with_write : ℕ → ℕ
with_write e = if e / 2 ^ 63 == 0 then e + 2 ^ 63 else e

-- `write_willing_mask | update_willing_mask + 1`
abbrev pub one_upgrading : ℕ
one_upgrading = 2 ^ 62 + 2 ^ 61 + 1

-- The word, and the queues of the two condition variables, which hold the threads of the tokens.
pub record Memory : Type 0 where
  pub m_state : ℕ
  pub m_read_cv : List ℕ
  pub m_write_cv : List ℕ

-- Where a thread stands. The number is the local `e`.
pub data Pc : Type 0 where
  idle : Pc
  read_load : Pc
  read_wait : (e : ℕ) → Pc
  read_asleep : Pc
  try_read_load : Pc
  try_read_exchange : (e : ℕ) → Pc
  holds_read : Pc
  read_dropped : Pc
  read_notified : Pc
  write_load : Pc
  write_announce : (e : ℕ) → Pc
  write_fetch : Pc
  write_wait : (e : ℕ) → Pc
  write_asleep : Pc
  write_commit : (e : ℕ) → Pc
  try_write_load : Pc
  try_write_exchange : Pc
  holds_write : Pc
  write_dropped : Pc
  write_notified : Pc
  upgrade_load : Pc
  upgrade_announce : (e : ℕ) → Pc
  upgrade_wait : Pc
  upgrade_asleep : Pc
  upgrade_refused : Pc
  refused_dropped : Pc
  refused_notified : Pc
  holds_nothing : Pc

abbrev at : Memory → ℕ → Memory
at m word = record m { m_state = word }

-- One atomic access to `m_state`, or one critical section of a queue, by thread `i`.
pub data Move (i : ℕ) (m : Memory) : Pc → Memory → Pc → Type 0 where
  -- `read`, with `wait_once`; its exchange is a weak one, and may fail for no reason
  read : Move i m Pc.idle m Pc.read_load
  read_loads : Move i m Pc.read_load m (Pc.read_wait (unwritten m.m_state))
  read_wins : {e : ℕ} → m.m_state ≡ e → Move i m (Pc.read_wait e) (at m (e + 1)) Pc.holds_read
  read_sleeps :
      {e : ℕ}
      → Move i m (Pc.read_wait e) (record m { m_read_cv = m.m_read_cv ++ i ∷ [] }) Pc.read_asleep
  read_resumes : ¬ Mem i m.m_read_cv → Move i m Pc.read_asleep m Pc.read_load
  -- `try_read`
  try_read : Move i m Pc.idle m Pc.try_read_load
  try_read_refused : written m.m_state ≢ 0 → Move i m Pc.try_read_load m Pc.idle
  try_read_loads :
      written m.m_state ≡ 0
      → Move i m Pc.try_read_load m (Pc.try_read_exchange (unwritten m.m_state))
  try_read_wins :
      {e : ℕ} → m.m_state ≡ e → Move i m (Pc.try_read_exchange e) (at m (e + 1)) Pc.holds_read
  try_read_fails : {e : ℕ} → Move i m (Pc.try_read_exchange e) m Pc.try_read_load
  -- `~read_guard`
  drop_read : Move i m Pc.holds_read (at m (u64 (m.m_state + 2 ^ 64 - 1))) Pc.read_dropped
  read_notifies_read : Move i m Pc.read_dropped (record m { m_read_cv = [] }) Pc.read_notified
  read_notifies_write : Move i m Pc.read_notified (record m { m_write_cv = [] }) Pc.idle
  -- `write`
  write : Move i m Pc.idle m Pc.write_load
  write_loads : Move i m Pc.write_load m (Pc.write_announce m.m_state)
  announce_wins :
      {e : ℕ}
      → m.m_state ≡ e
      → Move i m (Pc.write_announce e) (at m (with_willing e)) Pc.write_fetch
  announce_fails : {e : ℕ} → Move i m (Pc.write_announce e) m Pc.write_load
  write_restarts : m.m_state ≡ 0 → Move i m Pc.write_fetch m Pc.write_load
  write_fetches : m.m_state ≢ 0 → Move i m Pc.write_fetch m (Pc.write_wait m.m_state)
  -- `wait_once`, whose predicate reads the local `e`
  write_passes : {e : ℕ} → e ≡ write_willing_mask → Move i m (Pc.write_wait e) m (Pc.write_commit e)
  write_sleeps :
      {e : ℕ}
      → e ≢ write_willing_mask
      → Move i m
          (Pc.write_wait e)
          (record m { m_write_cv = m.m_write_cv ++ i ∷ [] })
          Pc.write_asleep
  write_resumes : ¬ Mem i m.m_write_cv → Move i m Pc.write_asleep m Pc.write_fetch
  commit_wins :
      {e : ℕ} → m.m_state ≡ e → Move i m (Pc.write_commit e) (at m (with_write e)) Pc.holds_write
  commit_fails : {e : ℕ} → m.m_state ≢ e → Move i m (Pc.write_commit e) m Pc.write_fetch
  -- `try_write`
  try_write : Move i m Pc.idle m Pc.try_write_load
  try_write_refused : m.m_state ≢ 0 → Move i m Pc.try_write_load m Pc.idle
  try_write_loads : m.m_state ≡ 0 → Move i m Pc.try_write_load m Pc.try_write_exchange
  try_write_wins : m.m_state ≡ 0 → Move i m Pc.try_write_exchange (at m write_mask) Pc.holds_write
  try_write_fails : m.m_state ≢ 0 → Move i m Pc.try_write_exchange m Pc.idle
  -- `~write_guard`
  drop_write : Move i m Pc.holds_write (at m 0) Pc.write_dropped
  write_notifies_write : Move i m Pc.write_dropped (record m { m_write_cv = [] }) Pc.write_notified
  write_notifies_read : Move i m Pc.write_notified (record m { m_read_cv = [] }) Pc.idle
  -- `upgrade`; the first exchange is a weak one, and leaves the word that it found in `e`
  upgrade : Move i m Pc.holds_read m Pc.upgrade_load
  upgrade_refuses : willing m.m_state ≢ 0 → Move i m Pc.upgrade_load m Pc.upgrade_refused
  upgrade_loads : willing m.m_state ≡ 0 → Move i m Pc.upgrade_load m (Pc.upgrade_announce m.m_state)
  upgrade_announces :
      {e : ℕ}
      → m.m_state ≡ e
      → Move i m (Pc.upgrade_announce e) (at m (with_updating (with_willing e))) Pc.upgrade_wait
  upgrade_overtaken :
      {e : ℕ} → willing m.m_state ≢ 0 → Move i m (Pc.upgrade_announce e) m Pc.upgrade_refused
  upgrade_retries :
      {e : ℕ} → willing m.m_state ≡ 0 → Move i m (Pc.upgrade_announce e) m Pc.upgrade_load
  -- `wait`, with the exchange as its predicate
  upgrade_wins :
      m.m_state ≡ one_upgrading
      → Move i m Pc.upgrade_wait (at m (write_mask + write_willing_mask)) Pc.holds_write
  upgrade_sleeps :
      m.m_state ≢ one_upgrading
      → Move i m Pc.upgrade_wait
          (record m { m_write_cv = m.m_write_cv ++ i ∷ [] })
          Pc.upgrade_asleep
  upgrade_resumes : ¬ Mem i m.m_write_cv → Move i m Pc.upgrade_asleep m Pc.upgrade_wait
  -- the guard that `upgrade` was called on is destroyed
  drop_refused :
      Move i m Pc.upgrade_refused (at m (u64 (m.m_state + 2 ^ 64 - 1))) Pc.refused_dropped
  refused_notifies_read :
      Move i m Pc.refused_dropped (record m { m_read_cv = [] }) Pc.refused_notified
  refused_notifies_write :
      Move i m Pc.refused_notified (record m { m_write_cv = [] }) Pc.holds_nothing
  drop_nothing : Move i m Pc.holds_nothing m Pc.idle
