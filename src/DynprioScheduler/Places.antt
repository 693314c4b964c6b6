-- ===== src/DynprioScheduler/Places.antt =====
-- Each execution of the scheduler is in one place: queued, suspended, or the current one.
use asco.Prelude.{
  ℕ, ◌+◌, ◌≡◌, sym, ap, ◌∙◌, arith, Bool, true, false, to_nat, Option, none, some, List, update,
  update_self, update_ne, ℕ_discrete, ◌==◌, Bool-cases, inl, inr, subst,
}
use asco.DynprioScheduler.{
  Execution, Scheduler, contains, attach_execution, detach_suspended_execution, awake_own,
  awake_execution, suspend_current, begin, end_test, end_branch, end, time_since,
}
use asco.DynprioScheduler.Queue.{occurrences}

-- How often an execution is queued.
abbrev pub queued : ℕ → List Execution → ℕ
queued id q = occurrences (λ e. e.id == id) q

-- Between two rounds no execution is current.
pub data Phase : Type 0 where
  between : Phase
  running : (id : ℕ) → Phase

abbrev pub current : Phase → ℕ → ℕ
current Phase.between id = 0
current (Phase.running c) id = to_nat (c == id)

contains-update :
    (map : ℕ → Option ℕ) (a now id : ℕ)
    → contains map a ≡ true
    → contains (update map a (some now)) id ≡ contains map id
contains-update map a now id known = elim (ℕ_discrete a id) [
  | yes same ↦
      subst (λ x. contains (update map a (some now)) x ≡ contains map x) same
        (ap has (update_self map a (some now)) ∙ sym known)
  | no other ↦ ap has (update_ne map a id (some now) other)
]
  where
    has : Option ℕ → Bool
    has o = elim o [ none ↦ false | some _ ↦ true ]

module _ {P : Type 0} where
  pub record Places (p : Phase) (s : Scheduler P) : Type 0 where
    pub places :
        (id : ℕ)
        → queued id s.m_active_executions + to_nat (s.m_suspended_executions id) + current p id
          ≡ to_nat (contains s.m_exec_ctx_map id)

  pub attach-Places :
      (p : Phase) (s s' : Scheduler P) (a : ℕ)
      → attach_execution s a ≡ some s'
      → Places p s
      → Places p s'
  unfolding attach_execution
  attach-Places p s s' a e h = record { places = λ id. ground (arith, h.places id) }

  pub detach-Places :
      (p : Phase) (s : Scheduler P) (a : ℕ) → Places p s → Places p (detach_suspended_execution s a)
  unfolding detach_suspended_execution
  detach-Places p s a h = record { places = λ id. ground (arith, h.places id) }

  awake-Places : (p : Phase) (s : Scheduler P) (a : ℕ) → Places p s → Places p (awake_own s a)
  unfolding awake_own
  awake-Places p s a h = record { places = λ id. ground (arith, h.places id) }

  pub awake_execution-Places :
      (p : Phase) (s : Scheduler P) (f : P → P) (a : ℕ)
      → Places p s
      → Places p (awake_execution f s a)
  unfolding awake_execution
  awake_execution-Places p s f a h = elim (Bool-cases (contains s.m_exec_ctx_map a)) [
    | inl known ↦ rw known (record { places = (awake-Places p s a h).places })
    | inr unknown ↦ rw unknown h
  ]

  pub suspend-Places :
      (p : Phase) (s s' : Scheduler P) (a : ℕ)
      → suspend_current s a ≡ some s'
      → Places p s
      → Places p s'
  unfolding suspend_current
  suspend-Places p s s' a e h = record { places = λ id. ground (arith, h.places id) }

  pub begin-Places :
      (s : Scheduler P) (a now : ℕ)
      → Places (Phase.running a) s
      → Places (Phase.running a) (begin s a now)
  unfolding begin
  begin-Places s a now h =
      let here : contains s.m_exec_ctx_map a ≡ true = ground (arith, h.places a) in
      record {
        places =
            λ id. h.places id ∙ ap to_nat (sym (contains-update s.m_exec_ctx_map a now id here));
      }

  end_test-Places :
      (p : Phase) (s : Scheduler P) (a : ℕ) (c : Bool) → Places p s → Places p (end_test s a c).1
  unfolding end_test
  end_test-Places p s a c h = record { places = λ id. ground (arith, h.places id) }

  end_branch-Places :
      (stop : Bool) (s : Scheduler P) (a t : ℕ)
      → Places (Phase.running a) s
      → Places Phase.between (end_branch stop s a t)
  unfolding end_branch
  end_branch-Places stop s a t h = record { places = λ id. ground (arith, h.places id) }

  pub end-Places :
      (s : Scheduler P) (a now : ℕ) (c : Bool)
      → Places (Phase.running a) s
      → Places Phase.between (end s a now c)
  unfolding end
  end-Places s a now c h =
      end_branch-Places (end_test s a c).0 (end_test s a c).1 a (time_since s a now)
        (end_test-Places (Phase.running a) s a c h)
