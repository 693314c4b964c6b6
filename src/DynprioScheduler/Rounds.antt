-- ===== src/DynprioScheduler/Rounds.antt =====
-- The rounds of the scheduler: which execution is next, and what all calls keep.
use asco.Prelude.{
  ℕ, ◌≡◌, refl, sym, ◌∙◌, arith, Bool, true, false, Option, none, some, ◌∷◌, List, [], ◌==◌,
  some-injective, inl, inr, ◌⊎◌, subst, Option-cases,
}
use asco.DynprioScheduler.{
  Execution, less, Scheduler, contains, attach_execution, detach_suspended_execution,
  awake_execution, suspend_current, has_active_execution, begin, end, schedule,
}
use asco.DynprioScheduler.Queue.{occurrences, IsLeast, IsPriorityQueue, IsTop-IsLeast}
use asco.DynprioScheduler.Places.{
  Phase, Places, attach-Places, detach-Places, awake_execution-Places, suspend-Places, begin-Places,
  end-Places,
}

filled :
    (top_pop : List Execution → Option (Execution × List Execution))
    → IsPriorityQueue less top_pop
    → (q : List Execution) → (elim q [ [] ↦ false | _ ∷ _ ↦ true ]) ≡ true
    → (f : Execution) × (rest : List Execution) × (top_pop q ≡ some (f, rest))
filled top_pop law [] h = absurd cc
filled top_pop law (e ∷ q) h = law.found e q

module _ {P : Type 0} (top_pop : List Execution → Option (Execution × List Execution))
    (law : IsPriorityQueue less top_pop) where
  -- A queued execution has a context.
  known :
      (s : Scheduler P) (e : Execution) (rest : List Execution)
      → top_pop s.m_active_executions ≡ some (e, rest)
      → Places Phase.between s
      → contains s.m_exec_ctx_map e.id ≡ true
  known s e rest h places =
      ground
        (arith, places.places e.id, law.kept s.m_active_executions e rest h (λ f. f.id == e.id))

  -- What `schedule` returns of a queue that is not empty: an entry with the lowest number, which
  -- becomes the current one and leaves the queue.
  pub record Scheduled (s : Scheduler P) (r : Option (ℕ × Scheduler P)) : Type 0 where
    pub next : Execution
    pub rest : List Execution
    pub returns :
        r ≡ some (next.id, record s { m_current_execution = next; m_active_executions = rest })
    pub lowest : IsLeast next.priority rest
    pub taken :
        (w : Execution → Bool) → occurrences w s.m_active_executions ≡ occurrences w (next ∷ rest)
    pub phase :
        Places
          (Phase.running next.id)
          (record s { m_current_execution = next; m_active_executions = rest })

  schedule-some :
      (s : Scheduler P) (e : Execution) (rest : List Execution)
      → top_pop s.m_active_executions ≡ some (e, rest)
      → Places Phase.between s
      → Scheduled s (schedule top_pop s)
  unfolding schedule
  schedule-some s e rest h places = record {
    next = e;
    rest = rest;
    returns = rw (schedule, h, known s e rest h places) refl;
    lowest = IsTop-IsLeast e rest (law.top_most s.m_active_executions e rest h);
    taken = law.kept s.m_active_executions e rest h;
    phase = record {
      places = λ id.
          ground
            (arith, places.places id, law.kept s.m_active_executions e rest h (λ f. f.id == id));
    };
  }

  -- With a queue that keeps its entries and takes out one that is not less than any other in the order
  -- `operator<` of the executions: if `has_active_execution` and each known execution is in one place, `schedule` returns a queued
  -- execution with the lowest priority number, which leaves the queue and becomes the current one;
  -- the others stay queued, and each known execution is again in one place.
  pub schedule_lowest :
      (s : Scheduler P)
      → has_active_execution s ≡ true
      → Places Phase.between s
      → Scheduled s (schedule top_pop s)
  schedule_lowest s h places =
      let (f, rest, found) = filled top_pop law s.m_active_executions h in
      schedule-some s f rest found places

  scheduled :
      (s s' : Scheduler P) (id : ℕ)
      → (top_pop s.m_active_executions ≡ none)
        ⊎ ((r : Execution × List Execution) × (top_pop s.m_active_executions ≡ some r))
      → schedule top_pop s ≡ some (id, s')
      → Places Phase.between s
      → Places (Phase.running id) s'
  unfolding schedule
  scheduled s s' id (inl none_left) e places =
      let stuck : schedule top_pop s ≡ none = rw (schedule, none_left) refl in absurd cc
  scheduled s s' id (inr ((f, rest), h)) e places =
      let found : Scheduled s (schedule top_pop s) = schedule-some s f rest h places in
      let same : ◌≡◌ {A = Option (ℕ × Scheduler P)}
          (some (
            found.next.id,
            record s { m_current_execution = found.next; m_active_executions = found.rest },
          ))
          (some (id, s')) =
        sym found.returns ∙ e in
      subst (λ r. Places (Phase.running r.0) r.1) (some-injective same) found.phase

  -- One call, in the phases in which the worker makes it.
  pub data Call (p : Phase) (s : Scheduler P) : Phase → Scheduler P → Type 0 where
    attaches : {s' : Scheduler P} (id : ℕ) → attach_execution s id ≡ some s' → Call p s p s'
    detaches : (id : ℕ) → Call p s p (detach_suspended_execution s id)
    awakes : (awake_parent : P → P) (id : ℕ) → Call p s p (awake_execution awake_parent s id)
    suspends : {s' : Scheduler P} (id : ℕ) → suspend_current s id ≡ some s' → Call p s p s'
    schedules :
        {s' : Scheduler P} (id : ℕ)
        → p ≡ Phase.between
        → schedule top_pop s ≡ some (id, s')
        → Call p s (Phase.running id) s'
    begins : (id now : ℕ) → p ≡ Phase.running id → Call p s p (begin s id now)
    ends :
        (id now : ℕ) (completed : Bool)
        → p ≡ Phase.running id
        → Call p s Phase.between (end s id now completed)

  pub data Calls (p : Phase) (s : Scheduler P) : Phase → Scheduler P → Type 0 where
    none_yet : Calls p s p s
    and_then :
        {p' p'' : Phase} {s' s'' : Scheduler P}
        → Calls p s p' s'
        → Call p' s' p'' s''
        → Calls p s p'' s''

  Call-Places : {p p' : Phase} {s s' : Scheduler P} → Call p s p' s' → Places p s → Places p' s'
  Call-Places {p} {p'} {s} (attaches {s' = s'} id e) h = attach-Places p s s' id e h
  Call-Places {p} {p'} {s} (detaches id) h = detach-Places p s id h
  Call-Places {p} {p'} {s} (awakes f id) h = awake_execution-Places p s f id h
  Call-Places {p} {p'} {s} (suspends {s' = s'} id e) h = suspend-Places p s s' id e h
  Call-Places {p} {p'} {s} (schedules {s' = s'} id e r) h =
      scheduled s s' id (Option-cases (top_pop s.m_active_executions)) r
        (subst (λ x. Places x s) e h)
  Call-Places {p} {p'} {s} (begins id now e) h =
      subst (λ x. Places x (begin s id now)) (sym e)
        (begin-Places s id now (subst (λ x. Places x s) e h))
  Call-Places {p} {p'} {s} (ends id now c e) h = end-Places s id now c (subst (λ x. Places x s) e h)

  -- In every state that the calls reach from one in which each known execution is in one place, each
  -- known execution is in one place: it is queued once, or suspended, or the current one of a round
  -- that has not ended.
  pub calls-Places :
      {p : Phase} {s : Scheduler P} {p' : Phase} {s' : Scheduler P}
      → Calls p s p' s'
      → Places p s
      → Places p' s'
  calls-Places none_yet h = h
  calls-Places (and_then calls call) h = Call-Places call (calls-Places calls h)
