-- ===== src/Channel.antt =====
-- asco/sync/channel.h: a bounded channel with a semaphore for the values and one for the room.
-- Calls run with no other task in between. The queue is the list that RingQueue shows the ring to be:
-- `try_send` drops a value that does not fit. A semaphore is its count, which `release` caps.
pub mod Fifo
pub mod Stop
mod Examples
use asco.Prelude.{
  ℕ, zero, suc, ◌+◌, ◌-◌, min, Bool, true, false, ◌&&◌, Option, none, some, List, [], ◌∷◌, ◌++◌,
  length, Expected, value, unexpected, ltb, ◌==◌, if◌then◌else◌,
}

-- `channel_cntrl` and the queue that both ends share. `capacity` is `channel_capacity`, 1024.
pub record Channel {ℓ} (T : Type ℓ) : Type ℓ where
  pub closed : Bool
  pub count_sem : ℕ
  pub backpress_sem : ℕ
  pub queue : List T

abbrev pub channel_capacity : ℕ
channel_capacity = 1024

-- `channel`
abbrev pub channel {ℓ} : (T : Type ℓ) → ℕ → Channel T
channel T capacity = record { closed = false; count_sem = 0; backpress_sem = capacity; queue = [] }

-- `release()` of a semaphore
abbrev pub release : ℕ → ℕ → ℕ
release capacity c = c + min 1 (capacity - c)

module _ {ℓ} {T : Type ℓ} (capacity : ℕ) where
  abbrev pub try_send : List T → T → List T
  try_send q v = if ltb (length q) capacity then q ++ v ∷ [] else q

  -- `sender::send`; `none`: the call waits for room.
  unfoldable pub send : Channel T → T → Option (Expected (Unit {0}) T × Channel T)
  send c v = if c.closed then some (unexpected v, c) else elim c.backpress_sem [
    | zero ↦ none
    | suc b ↦ some (
      value tt,
      record c {
        count_sem = release capacity c.count_sem;
        backpress_sem = b;
        queue = try_send c.queue v;
      },
    )
  ]

  -- `receiver::recv` after it has a unit of `count_sem`, of which `k` are left.
  unfoldable pub receive : Channel T → ℕ → Option T × Channel T
  receive c k = if k == 0 && c.closed then (none, record c { count_sem = k }) else elim c.queue [
    | [] ↦ (none, record c { count_sem = k; backpress_sem = release capacity c.backpress_sem })
    | v ∷ q ↦ (
      some v,
      record c { count_sem = k; backpress_sem = release capacity c.backpress_sem; queue = q },
    )
  ]

  -- `receiver::recv`; `none`: the call waits for a value.
  unfoldable pub recv : Channel T → Option (Option T × Channel T)
  recv c =
      if c.count_sem == 0 && c.closed
      then some (none, c)
      else elim c.count_sem [ zero ↦ none | suc k ↦ some (receive c k) ]

  -- `sender::stop` and `receiver::stop`
  abbrev pub stop : Channel T → Channel T
  stop c = record c {
    closed = true;
    count_sem = release capacity c.count_sem;
    backpress_sem = release capacity c.backpress_sem;
  }
