-- ===== src/ConditionVariable/Order.antt =====
-- The queue is first in, first out, and no token is lost or made up.
use asco.Prelude.{
  ℕ, zero, suc, ◌+◌, ◌<◌, min, ◌≡◌, refl, arith, sym, ◌∙◌, Bool, true, false, List, [], ◌∷◌, ◌++◌,
  append_assoc, append-nil, length, Expected, value, unexpected, Bool-cases, inl, inr,
  length-append, to_nat, not, if◌then◌else◌,
}
use asco.ConditionVariable.{
  NotifyFailed, ConditionVariable, notify_from, notify_one, notify_if, enqueue,
}

-- The tokens that were ever queued, in order.
abbrev pub history : ConditionVariable → List ℕ
history c = c.awoken ++ c.m_wait_queue

abbrev pub Notified : ℕ → ConditionVariable → Type 0
Notified n c =
    ((notify_from n c).0 ≡ min n (length c.m_wait_queue))
    × (history (notify_from n c).1 ≡ history c)
    × (length (notify_from n c).1.awoken ≡ length c.awoken + min n (length c.m_wait_queue))

notify_at : (n : ℕ) (q w : List ℕ) → Notified n (record { m_wait_queue = q; awoken = w })
unfolding notify_from
notify_at zero q w = (omega arith, refl, omega arith)
notify_at (suc n) [] w = (omega arith, refl, omega arith)
notify_at (suc n) (x ∷ q) w =
    let (count, order, woken) = notify_at n q (w ++ x ∷ []) in
    (omega arith, order ∙ append_assoc w (x ∷ []) q, omega (arith, length-append w (x ∷ [])))

-- `notify(n)` wakes the first `n` waiters, or all if there are fewer, in the order in which they came,
-- and returns how many it woke.
pub notify_lem : (n : ℕ) (c : ConditionVariable) → Notified n c
notify_lem n c = notify_at n c.m_wait_queue c.awoken

-- `notify_one()` is `notify(1)`, with whether it woke one as a Boolean.
pub notify_one-notify :
    (c : ConditionVariable)
    → ((notify_one c).1 ≡ (notify_from 1 c).1) × (to_nat (notify_one c).0 ≡ (notify_from 1 c).0)
unfolding notify_one notify_from
notify_one-notify c = one_at c.m_wait_queue c.awoken
  where
    one_at :
        (q w : List ℕ)
        → ((notify_one (record { m_wait_queue = q; awoken = w })).1
            ≡ (notify_from 1 (record { m_wait_queue = q; awoken = w })).1)
          × (to_nat (notify_one (record { m_wait_queue = q; awoken = w })).0
              ≡ (notify_from 1 (record { m_wait_queue = q; awoken = w })).0)
    one_at [] w = (refl, refl)
    one_at (x ∷ q) w = (refl, refl)

module _ {S : Type 0} (predicate : S → Bool × S) where
  -- The results of `notify(predicate, n)`.
  pub data Conditional (c : ConditionVariable) (n : ℕ) (s : S)
      : Expected ℕ NotifyFailed × ConditionVariable × S → Type 0 where
    nobody : c.m_wait_queue ≡ [] → Conditional c n s (unexpected NotifyFailed.no_waiters, c, s)
    refused :
        0 < length c.m_wait_queue
        → (predicate s).0 ≡ false
        → Conditional c n s (unexpected NotifyFailed.predicate_false, c, (predicate s).1)
    notified :
        0 < length c.m_wait_queue
        → (predicate s).0 ≡ true
        → Notified n c
        → Conditional c n s (value (notify_from n c).0, (notify_from n c).1, (predicate s).1)

  if_at :
      (q w : List ℕ) (n : ℕ) (s : S)
      → Conditional
          (record { m_wait_queue = q; awoken = w })
          n
          s
          (notify_if predicate (record { m_wait_queue = q; awoken = w }) n s)
  unfolding notify_if
  if_at [] w n s = nobody refl
  if_at (x ∷ q) w n s = elim (Bool-cases (predicate s).0) [
    | inl ok ↦
        rw ok
          (notified (omega arith) ok (notify_lem n (record { m_wait_queue = x ∷ q; awoken = w })))
    | inr bad ↦ rw bad (refused (omega arith) bad)
  ]

  -- `notify(predicate, n)` does not call the predicate when nobody waits, wakes nobody when it says no,
  -- and is else `notify(n)`.
  pub notify_if_lem :
      (c : ConditionVariable) (n : ℕ) (s : S) → Conditional c n s (notify_if predicate c n s)
  notify_if_lem c n s = if_at c.m_wait_queue c.awoken n s

  -- A task goes to sleep just when its predicate does not hold, and then stands last in the queue; else
  -- the queue stays as it is.
  pub enqueue_lem :
      (c : ConditionVariable) (token : ℕ) (s : S)
      → ((enqueue predicate c token s).0 ≡ not (predicate s).0)
        × (history (enqueue predicate c token s).1
            ≡ history c ++ (if (predicate s).0 then [] else token ∷ []))
  unfolding enqueue
  enqueue_lem c token s = elim (Bool-cases (predicate s).0) [
    | inl ok ↦ rw ok (refl, sym (append-nil _))
    | inr bad ↦ rw bad (refl, sym (append_assoc c.awoken c.m_wait_queue (token ∷ [])))
  ]
