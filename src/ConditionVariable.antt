-- ===== src/ConditionVariable.antt =====
-- asco/sync/condition_variable.h: the calls as critical sections of the queue's spinlock. A token is a
-- number. A predicate reads and may change a state of its caller's.
pub mod Order
mod Examples
use asco.Prelude.{
  ℕ, zero, suc, ◌+◌, ◌-◌, ◌^◌, Bool, true, false, List, [], ◌∷◌, ◌++◌, Expected, value, unexpected,
  if◌then◌else◌,
}

pub data NotifyFailed : Type 0 where
  predicate_false no_waiters : NotifyFailed

-- `m_wait_queue`, and the tokens that have been woken, in order.
pub record ConditionVariable : Type 0 where
  pub m_wait_queue : List ℕ
  pub awoken : List ℕ

-- The loop of `notify`, with `n - notified` as `n`.
unfoldable pub notify_from : ℕ → ConditionVariable → ℕ × ConditionVariable
notify_from zero c = (0, c)
notify_from (suc n) c = elim c.m_wait_queue [
  | [] ↦ (0, c)
  | token ∷ rest ↦
      let (notified, c') =
        notify_from n (record { m_wait_queue = rest; awoken = c.awoken ++ token ∷ [] }) in
      (suc notified, c')
]

-- `notify(n)`
abbrev pub notify : ConditionVariable → ℕ → ℕ × ConditionVariable
notify c n = notify_from n c

-- `notify()`
abbrev pub notify_all : ConditionVariable → ℕ × ConditionVariable
notify_all c = notify_from (2 ^ 64 - 1) c

-- `notify_one()`
unfoldable pub notify_one : ConditionVariable → Bool × ConditionVariable
notify_one c = elim c.m_wait_queue [
  | [] ↦ (false, c)
  | token ∷ rest ↦ (true, record { m_wait_queue = rest; awoken = c.awoken ++ token ∷ [] })
]

module _ {S : Type 0} (predicate : S → Bool × S) where
  -- `notify(predicate, n)`
  unfoldable pub notify_if :
      ConditionVariable → ℕ → S → Expected ℕ NotifyFailed × ConditionVariable × S
  notify_if c n s = elim c.m_wait_queue [
    | [] ↦ (unexpected NotifyFailed.no_waiters, c, s)
    | _ ∷ _ ↦
        let (ok, s') = predicate s in
        let (notified, c') = notify_from n c in
        if ok then (value notified, c', s') else (unexpected NotifyFailed.predicate_false, c, s')
  ]

  -- `notify_one(predicate)`
  unfoldable pub notify_one_if :
      ConditionVariable → S → Expected (Unit {0}) NotifyFailed × ConditionVariable × S
  notify_one_if c s = elim c.m_wait_queue [
    | [] ↦ (unexpected NotifyFailed.no_waiters, c, s)
    | token ∷ rest ↦
        let (ok, s') = predicate s in
        if ok
        then (value tt, record { m_wait_queue = rest; awoken = c.awoken ++ token ∷ [] }, s')
        else (unexpected NotifyFailed.predicate_false, c, s')
  ]

  -- The critical section of `wait` and `wait_once` for `token`: does the task go to sleep?
  unfoldable pub enqueue : ConditionVariable → ℕ → S → Bool × ConditionVariable × S
  enqueue c token s =
      let (ok, s') = predicate s in
      if ok
      then (false, c, s')
      else (true, record c { m_wait_queue = c.m_wait_queue ++ token ∷ [] }, s')
