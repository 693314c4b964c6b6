-- ===== src/CycleScheduler/Wakeups.antt =====
-- Suspending and waking an execution.
use asco.Prelude.{ℕ, ◌+◌, ◌≡◌, refl, ap, ◌∙◌, true, false, some, update, update_self, ◌&&◌, not}
use asco.Murmur.{u64}
use asco.CycleScheduler.{State, Slot, Scheduler, find, awake_own, suspend_current, end}

module _ {P : Type 0} (n id i : ℕ) where
  -- One call each, on a scheduler that finds the execution in slot `i`.
  module _ (t : Scheduler P) (known : find n t id ≡ some i) where
    awake_active :
        (t.m_executions i).active ≡ true
        → awake_own n t id ≡ record t {
          m_executions = update t.m_executions i (record (t.m_executions i) { preawaken = true });
        }
    unfolding awake_own
    awake_active on = rw (awake_own, known, on) refl

    awake_inactive :
        (t.m_executions i).active ≡ false
        → awake_own n t id ≡ record t {
          m_executions =
              update t.m_executions i
                (record (t.m_executions i) { suspend_now = false; active = true });
          m_active_count = u64 (t.m_active_count + 1);
          domain = update t.domain id State.active;
        }
    unfolding awake_own
    awake_inactive off = rw (awake_own, known, off) refl

    suspend_spared :
        (t.m_executions i).preawaken ≡ true
        → suspend_current n t id ≡ record t {
          m_executions = update t.m_executions i (record (t.m_executions i) { preawaken = false });
        }
    unfolding suspend_current
    suspend_spared pre = rw (suspend_current, known, pre) refl

    suspend_fresh :
        (t.m_executions i).preawaken ≡ false
        → suspend_current n t id ≡ record t {
          m_executions = update t.m_executions i (record (t.m_executions i) { suspend_now = true });
          domain = update t.domain id State.suspended;
        }
    unfolding suspend_current
    suspend_fresh pre = rw (suspend_current, known, pre) refl

module _ {P : Type 0} (n : ℕ) (s : Scheduler P) (id i : ℕ) (known : find n s id ≡ some i)
    (mine : (s.m_executions i).id ≡ id) (on : (s.m_executions i).active ≡ true)
    (calm : (s.m_executions i).suspend_now ≡ false) where
  -- The slot can be scheduled again, and its execution is active in the domain.
  pub record IsReady (t : Scheduler P) : Type 0 where
    pub runs : (t.m_executions i).active ≡ true
    pub in_domain : t.domain id ≡ State.active
    pub count_kept : t.m_active_count ≡ s.m_active_count

  -- A slot that is not to be suspended ends its turn ready.
  end-IsReady :
      (t : Scheduler P)
      → (t.m_executions i).id ≡ id
      → (t.m_executions i).active ≡ true
      → ((t.m_executions i).suspend_now && not (t.m_executions i).preawaken) ≡ false
      → t.m_active_count ≡ s.m_active_count
      → IsReady (end n t i false)
  unfolding end
  end-IsReady t own run stay kept =
      rw (end, stay)
        (record {
          runs = ap (λ x. x.active) (update_self t.m_executions i _) ∙ run;
          in_domain =
              ap (λ (k : ℕ). update t.domain k State.active id) own
              ∙ update_self t.domain id State.active;
          count_kept = kept;
        })

  -- An active execution without a suspension pending that is woken, then suspends itself, and
  -- then ends its turn without completing stays active, and the count of active ones stays.
  pub awake-suspend : IsReady (end n (suspend_current n (awake_own n s id) id) i false)
  awake-suspend =
      rw (awake_active n id i s known on, suspend_spared n id i t known (ap (λ x. x.preawaken) was))
        (end-IsReady _ (ap (λ x. x.id) now ∙ ap (λ x. x.id) was ∙ mine)
          (ap (λ x. x.active) now ∙ ap (λ x. x.active) was ∙ on)
          (ap (λ x. x.suspend_now && not x.preawaken) now
            ∙ ap (λ x. x.suspend_now && true) was
            ∙ rw calm refl)
          refl)
    where
      woken : Slot
      woken = record (s.m_executions i) { preawaken = true }

      t : Scheduler P
      t = record s { m_executions = update s.m_executions i woken }

      was : t.m_executions i ≡ woken
      was = update_self s.m_executions i woken

      now :
          update t.m_executions i (record (t.m_executions i) { preawaken = false }) i
          ≡ record (t.m_executions i) { preawaken = false }
      now = update_self t.m_executions i _

  -- An active execution with neither a suspension nor a wakeup pending that suspends itself, is
  -- then woken, and then ends its turn without completing stays active, and the count of active
  -- ones stays.
  pub suspend-awake :
      (s.m_executions i).preawaken ≡ false
      → IsReady (end n (awake_own n (suspend_current n s id) id) i false)
  suspend-awake fresh =
      rw
        (
          suspend_fresh n id i s known fresh,
          awake_active n id i t known (ap (λ x. x.active) was ∙ on),
        )
        (end-IsReady _ (ap (λ x. x.id) now ∙ ap (λ x. x.id) was ∙ mine)
          (ap (λ x. x.active) now ∙ ap (λ x. x.active) was ∙ on)
          (ap (λ x. x.suspend_now && not x.preawaken) now ∙ ap (λ x. x.suspend_now && false) was)
          refl)
    where
      asked : Slot
      asked = record (s.m_executions i) { suspend_now = true }

      t : Scheduler P
      t = record s {
        m_executions = update s.m_executions i asked;
        domain = update s.domain id State.suspended;
      }

      was : t.m_executions i ≡ asked
      was = update_self s.m_executions i asked

      now :
          update t.m_executions i (record (t.m_executions i) { preawaken = true }) i
          ≡ record (t.m_executions i) { preawaken = true }
      now = update_self t.m_executions i _
