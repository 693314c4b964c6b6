-- ===== src/DynprioScheduler/Wakeups.antt =====
-- Suspending and waking the current execution.
use asco.Prelude.{
  ℕ, ◌≡◌, refl, arith, true, false, Option, some, update, ◌==◌, Bool-cases, inl, inr, update_self,
  ◌&&◌, not, ap, ◌∙◌,
}
use mathlib.Core.Option
use asco.CycleScheduler.{State}
use asco.DynprioScheduler.{
  Scheduler, contains, awake_own, awake_execution, suspend_current, end_test, end_branch, end,
}
use asco.DynprioScheduler.Places.{queued, Phase, Places}

module _ {P : Type 0} (id : ℕ) where
  -- The execution is queued once, and active in the domain.
  pub record IsReady (t : Scheduler P) : Type 0 where
    pub in_queue : queued id t.m_active_executions ≡ 1
    pub not_suspended : t.m_suspended_executions id ≡ false
    pub in_domain : t.domain id ≡ State.active

  -- No assertion failed, and the execution is ready.
  pub record ReadyAfter (r : Option (Scheduler P)) : Type 0 where
    pub state : Scheduler P
    pub passed : r ≡ some state
    pub ready : IsReady state

  after : (t : Scheduler P) → IsReady t → ReadyAfter (some t)
  after t h = record { state = t; passed = refl; ready = h }

  -- One call each, on a scheduler `t` that knows the execution.
  module _ (t : Scheduler P) (known : contains t.m_exec_ctx_map id ≡ true) where
    suspend_spared :
        t.m_current_execution.id ≡ id
        → t.m_preawake_executions id ≡ true
        → suspend_current t id
          ≡ some (record t { m_preawake_executions = update t.m_preawake_executions id false })
    unfolding suspend_current
    suspend_spared mine pre =
        let it : (t.m_current_execution.id == id) ≡ true = ground arith in rw (it, known, pre) refl

    suspend_fresh :
        t.m_current_execution.id ≡ id
        → t.m_preawake_executions id ≡ false
        → suspend_current t id
          ≡ some
              (record t { domain = update t.domain id State.suspended; m_current_suspend = true })
    unfolding suspend_current
    suspend_fresh mine pre =
        let it : (t.m_current_execution.id == id) ≡ true = ground arith in rw (it, known, pre) refl

    awake_awake :
        (f : P → P)
        → t.m_suspended_executions id ≡ false
        → awake_execution f t id ≡ record t {
          m_preawake_executions = update t.m_preawake_executions id true;
          parent = f t.parent;
        }
    unfolding awake_execution awake_own
    awake_awake f on = rw (known, on) refl

    awake_asleep :
        (f : P → P)
        → t.m_suspended_executions id ≡ true
        → queued id t.m_active_executions ≡ 0
        → IsReady (awake_execution f t id)
    unfolding awake_execution awake_own
    awake_asleep f off alone =
        rw (known, off)
          (record {
            in_queue = ground arith;
            not_suspended = update_self t.m_suspended_executions id false;
            in_domain = update_self t.domain id State.active;
          })

  end-IsReady :
      (t : Scheduler P) (now : ℕ)
      → (t.m_current_suspend && not (t.m_preawake_executions id)) ≡ false
      → queued id t.m_active_executions ≡ 0
      → IsReady (end t id now false)
  unfolding end end_test end_branch
  end-IsReady t now stay alone = rw stay (record {
    in_queue = ground arith;
    not_suspended = update_self (end_test t id false).1.m_suspended_executions id false;
    in_domain = update_self (end_test t id false).1.domain id State.active;
  })

  -- An execution that is ready stays so when it is woken.
  awake-IsReady :
      (t : Scheduler P) (f : P → P)
      → contains t.m_exec_ctx_map id ≡ true
      → IsReady t
      → IsReady (awake_execution f t id)
  awake-IsReady t f known h =
      rw (awake_awake t known f h.not_suspended)
        (record { in_queue = h.in_queue; not_suspended = h.not_suspended; in_domain = h.in_domain })

  end-ctx : (t : Scheduler P) (now : ℕ) → (end t id now false).m_exec_ctx_map ≡ t.m_exec_ctx_map
  unfolding end end_test end_branch
  end-ctx t now = ground arith

  end_calm :
      (t : Scheduler P) (now : ℕ)
      → t.m_current_suspend ≡ false
      → queued id t.m_active_executions ≡ 0
      → IsReady (end t id now false)
  end_calm t now calm alone =
      end-IsReady t now (ap (λ b. b && not (t.m_preawake_executions id)) calm) alone

  end_asleep :
      (t : Scheduler P) (now : ℕ)
      → (t.m_current_suspend && not (t.m_preawake_executions id)) ≡ true
      → ((end t id now false).m_suspended_executions id ≡ true)
        × ((end t id now false).m_active_executions ≡ t.m_active_executions)
  unfolding end end_test end_branch
  end_asleep t now stop = ground arith

module _ {P : Type 0} (s : Scheduler P) (id : ℕ) (places : Places (Phase.running id) s) where
  not_queued : queued id s.m_active_executions ≡ 0
  not_queued = ground (arith, places.places id)

  on : s.m_suspended_executions id ≡ false
  on = ground (arith, places.places id)

  known : contains s.m_exec_ctx_map id ≡ true
  known = ground (arith, places.places id)

  -- A wakeup comes between the two updates of `end`: with the test done, and before its branch.
  pub lost_in_end :
      (t : ℕ)
      → s.m_current_suspend ≡ true
      → s.m_preawake_executions id ≡ false
      → let r = end_test s id false in
        let u = end_branch r.0 (awake_own r.1 id) id t in
        (u.m_suspended_executions id ≡ true)
        × (queued id u.m_active_executions ≡ 0)
        × (u.m_preawake_executions id ≡ true)
  unfolding end_test end_branch awake_own
  lost_in_end t asked fresh = ground (arith, places.places id)

  module _ (f : P → P) (now : ℕ) (mine : s.m_current_execution.id ≡ id)
      (calm : s.m_current_suspend ≡ false) where
    -- `end` of the round, for the execution that did not complete.
    abbrev pub ended : Scheduler P → Scheduler P
    ended t = end t id now false

    -- With a wakeup pending, the suspension takes it.
    abbrev spared : Scheduler P
    spared = record s { m_preawake_executions = update s.m_preawake_executions id false }

    abbrev asked : Scheduler P
    asked = record s { domain = update s.domain id State.suspended; m_current_suspend = true }

    abbrev woken : Scheduler P → Scheduler P
    woken t = record t {
      m_preawake_executions = update t.m_preawake_executions id true;
      parent = f t.parent;
    }

    -- The three orders of a wakeup, a suspension and the end of the round.
    awake-suspend : ReadyAfter id (Option.map ended (suspend_current (awake_execution f s id) id))
    awake-suspend = rw (awake_awake id s known f on) (
        rw (suspend_spared id (woken s) known mine (update_self s.m_preawake_executions id true)) (
          after id
            (ended (record (woken s) {
              m_preawake_executions = update (woken s).m_preawake_executions id false;
            }))
            (end_calm id _ now calm not_queued)))

    suspend-awake :
        ReadyAfter id (Option.map (λ t. ended (awake_execution f t id)) (suspend_current s id))
    suspend-awake = elim (Bool-cases (s.m_preawake_executions id)) [
      | inl pre ↦ rw (suspend_spared id s known mine pre) (
          rw (awake_awake id spared known f on)
            (after id (ended (woken spared)) (end_calm id _ now calm not_queued)))
      | inr fresh ↦ rw (suspend_fresh id s known mine fresh) (
          rw (awake_awake id asked known f on) (
            after id (ended (woken asked)) (
              end-IsReady id _ now (ap (λ b. not b) (update_self s.m_preawake_executions id true))
                not_queued)))
    ]

    suspend-end :
        ReadyAfter id (Option.map (λ t. awake_execution f (ended t) id) (suspend_current s id))
    suspend-end = elim (Bool-cases (s.m_preawake_executions id)) [
      | inl pre ↦ rw (suspend_spared id s known mine pre) (
          after id (awake_execution f (ended spared) id) (
            awake-IsReady id (ended spared) f
              (ap (λ m. contains m id) (end-ctx id spared now) ∙ known)
              (end_calm id spared now calm not_queued)))
      | inr fresh ↦
          let asleep : ((ended asked).m_suspended_executions id ≡ true)
              × ((ended asked).m_active_executions ≡ s.m_active_executions) =
            end_asleep id asked now (ap not fresh) in
          rw (suspend_fresh id s known mine fresh) (
            after id (awake_execution f (ended asked) id) (
              awake_asleep id (ended asked) (ap (λ m. contains m id) (end-ctx id asked now) ∙ known)
                f asleep.0 (ap (queued id) asleep.1 ∙ not_queued)))
    ]

    -- If no suspension of the current execution is pending, and each known execution is in one place,
    -- then a suspension of the current execution that does not complete and a wakeup for it, which
    -- comes before the suspension, between it and the end of the round, or after the end, leave
    -- it queued once, not suspended, and active in its domain; no assertion fails.
    pub wakeup_kept :
        ReadyAfter id (Option.map ended (suspend_current (awake_execution f s id) id))
        × ReadyAfter id (Option.map (λ t. ended (awake_execution f t id)) (suspend_current s id))
        × ReadyAfter id (Option.map (λ t. awake_execution f (ended t) id) (suspend_current s id))
    wakeup_kept = (awake-suspend, suspend-awake, suspend-end)
