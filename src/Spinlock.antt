-- ===== src/Spinlock.antt =====
-- asco/sync/spinlock.h: a lock in one Boolean.
pub mod Exclusion
mod Examples
use asco.Prelude.{ℕ, ◌≡◌, Bool, true, false}

-- Where a thread stands.
pub data Pc : Type 0 where
  idle locking trying holds : Pc

-- One access to `m_locked`, whose value is `m`. The exchange of `lock` is a weak one, and may fail for
-- no reason.
pub data Move (i : ℕ) (m : Bool) : Pc → Bool → Pc → Type 0 where
  lock : Move i m Pc.idle m Pc.locking
  lock_wins : m ≡ false → Move i m Pc.locking true Pc.holds
  lock_fails : Move i m Pc.locking m Pc.locking
  try_lock : Move i m Pc.idle m Pc.trying
  try_lock_wins : m ≡ false → Move i m Pc.trying true Pc.holds
  try_lock_fails : m ≡ true → Move i m Pc.trying m Pc.idle
  -- `~guard`
  unlock : Move i m Pc.holds false Pc.idle
