-- ===== src/SpinRwLock.antt =====
-- asco/sync/spinrwlock.h: a spinning reader-writer lock in one word.
pub mod Exclusion
pub mod Writers
pub mod Alone
mod Examples
use asco.Prelude.{ℕ, ◌+◌, ◌-◌, ◌*◌, ◌/◌, ◌%◌, ◌^◌, ◌≡◌, ◌≢◌, ◌==◌, if◌then◌else◌}
use asco.Murmur.{u64}

abbrev pub write_willing_mask : ℕ
write_willing_mask = 2 ^ 62

abbrev pub write_mask : ℕ
write_mask = 2 ^ 63

-- `e & ~(write_mask | write_willing_mask)`
abbrev pub readers : ℕ → ℕ
readers e = e % 2 ^ 62

-- `e & (write_mask | write_willing_mask)`, as a test against 0
abbrev pub flags : ℕ → ℕ
flags e = e / 2 ^ 62

-- `e | write_willing_mask`
abbrev pub with_willing : ℕ → ℕ
with_willing e = if e / 2 ^ 62 % 2 == 0 then e + 2 ^ 62 else e

-- `e | write_mask`
abbrev pub with_write : ℕ → ℕ
with_write e = if e / 2 ^ 63 == 0 then e + 2 ^ 63 else e

-- Where a thread stands. The number is the local `e`.
pub data Pc : Type 0 where
  idle : Pc
  read_load : Pc
  read_exchange : (e : ℕ) → Pc
  try_read_load : Pc
  try_read_exchange : (e : ℕ) → Pc
  holds_read : Pc
  write_load : Pc
  write_announce : (e : ℕ) → Pc
  write_wait : (e : ℕ) → Pc
  write_commit : (e : ℕ) → Pc
  try_write_load : Pc
  try_write_exchange : Pc
  holds_write : Pc

-- One atomic access to `m_state`. `m` is the word, and `i` is the thread.
pub data Move (i : ℕ) (m : ℕ) : Pc → ℕ → Pc → Type 0 where
  -- `read`
  read : Move i m idle m read_load
  read_loads : Move i m read_load m (read_exchange (readers m))
  read_wins : {e : ℕ} → m ≡ e → Move i m (read_exchange e) (e + 1) holds_read
  read_fails : {e : ℕ} → Move i m (read_exchange e) m read_load
  -- `try_read`
  try_read : Move i m idle m try_read_load
  try_read_refused : flags m ≢ 0 → Move i m try_read_load m idle
  try_read_loads : flags m ≡ 0 → Move i m try_read_load m (try_read_exchange (readers m))
  try_read_wins : {e : ℕ} → m ≡ e → Move i m (try_read_exchange e) (e + 1) holds_read
  try_read_fails : {e : ℕ} → Move i m (try_read_exchange e) m try_read_load
  -- `~read_guard`
  drop_read : Move i m holds_read (u64 (m + 2 ^ 64 - 1)) idle
  -- `write`; the first exchange is a weak one, and may fail for no reason
  write : Move i m idle m write_load
  write_loads : Move i m write_load m (write_announce m)
  announce_wins :
      {e : ℕ} → m ≡ e → Move i m (write_announce e) (with_willing e) (write_wait write_willing_mask)
  announce_fails : {e : ℕ} → Move i m (write_announce e) m write_load
  wait_matches : {e : ℕ} → m ≡ e → Move i m (write_wait e) m (write_commit e)
  wait_restarts : {e : ℕ} → m ≢ e → m ≡ 0 → Move i m (write_wait e) m write_load
  wait_spins : {e : ℕ} → m ≢ e → m ≢ 0 → Move i m (write_wait e) m (write_wait e)
  commit_wins : {e : ℕ} → m ≡ e → Move i m (write_commit e) (with_write e) holds_write
  -- a failed exchange leaves the word that it found in `e`
  commit_fails : {e : ℕ} → m ≢ e → Move i m (write_commit e) m (write_wait m)
  -- `try_write`
  try_write : Move i m idle m try_write_load
  try_write_refused : m ≢ 0 → Move i m try_write_load m idle
  try_write_loads : m ≡ 0 → Move i m try_write_load m try_write_exchange
  try_write_wins : m ≡ 0 → Move i m try_write_exchange write_mask holds_write
  try_write_fails : m ≢ 0 → Move i m try_write_exchange m idle
  -- `~write_guard`
  drop_write : Move i m holds_write 0 idle
