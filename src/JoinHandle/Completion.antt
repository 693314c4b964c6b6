-- ===== src/JoinHandle/Completion.antt =====
-- One completion wins, and what the place of each thread says of the memory.
use asco.Prelude.{
  ℕ, ◌+◌, ◌≤◌, ◌≡◌, refl, sym, ap, ◌∙◌, ◌≢◌, ◌⊎◌, inl, inr, arith, to_nat, Bool, true, false,
  Option, none, some,
}
use asco.JoinHandle.{is_completed, Outcome, Memory, Pc, Move}

module _ {A : Type 0} where
  -- The threads that marked the task as completed.
  abbrev pub is_winner : Pc A → Bool
  is_winner (Pc.store o) = true
  is_winner (Pc.release o) = true
  is_winner (Pc.awake o) = true
  is_winner (Pc.awake_cancelled o) = true
  is_winner (Pc.finished o) = true
  is_winner _ = false

  -- Those of them that have yet to look for the awaiter.
  abbrev pub is_finishing : Pc A → Bool
  is_finishing (Pc.store o) = true
  is_finishing (Pc.release o) = true
  is_finishing (Pc.awake o) = true
  is_finishing _ = false

  -- Those that have released the semaphore.
  abbrev pub is_released : Pc A → Bool
  is_released (Pc.awake o) = true
  is_released (Pc.awake_cancelled o) = true
  is_released (Pc.finished o) = true
  is_released _ = false

  -- What the place of a thread says of the memory.
  abbrev pub Local : Memory A → Pc A → Type 0
  Local m (Pc.mark_exchange o e) = is_completed e ≡ false
  Local m (Pc.store o) = m.outcome ≡ none
  Local m (Pc.release o) = m.outcome ≡ some o
  Local m (Pc.awake o) = m.outcome ≡ some o
  Local m (Pc.awake_cancelled o) = m.outcome ≡ some o
  Local m (Pc.finished o) = m.outcome ≡ some o
  Local m (Pc.await_exchange e) = is_completed e ≡ false
  Local m Pc.resume = m.outcome ≢ none
  Local m (Pc.got o) = (m.outcome ≡ o) × (o ≢ none)
  Local m _ = Unit

  -- The counts of winners, of finishing and of released threads, and the shared memory.
  pub record Shape (w f r : ℕ) (m : Memory A) : Type 0 where
    pub one : w ≡ to_nat (is_completed m.cstate)
    pub permits : m.sync_awaiter ≤ r
    pub early : is_completed m.cstate ≡ false → m.outcome ≡ none
    pub unset : m.outcome ≡ none → ((t : ℕ) → m.awoken t ≡ 0) × (m.sync_awaiter ≡ 0)

  module _ (i w f r w' f' r' : ℕ) where
    abbrev pub Counted : Pc A → Pc A → Type 0
    Counted p p' =
        (w' + to_nat (is_winner p) ≡ w + to_nat (is_winner p'))
        × (f' + to_nat (is_finishing p) ≡ f + to_nat (is_finishing p'))
        × (r' + to_nat (is_released p) ≡ r + to_nat (is_released p'))

    pub Move-Shape :
        {m m' : Memory A} {p p' : Pc A}
        → Move i m p m' p'
        → Counted p p'
        → Local m p
        → to_nat (is_winner p) ≤ w
        → Shape w f r m
        → Shape w' f' r' m'
    Move-Shape (Move.mark_wins q) c l held s = record {
      one = ground (arith, s.one);
      permits = ground (arith, s.permits);
      early = λ e. absurd cc;
      unset = s.unset;
    }
    Move-Shape (Move.stores q) c l held s = record {
      one = ground (arith, s.one);
      permits = ground (arith, s.permits);
      early = λ e. absurd (ground (arith, s.one));
      unset = λ e. absurd cc;
    }
    Move-Shape (Move.stores_cancelled q) c l held s = record {
      one = ground (arith, s.one);
      permits = ground (arith, s.permits);
      early = λ e. absurd (ground (arith, s.one));
      unset = λ e. absurd cc;
    }
    Move-Shape Move.releases c l held s = record {
      one = ground (arith, s.one);
      permits = ground (arith, s.permits);
      early = s.early;
      unset = λ e. absurd cc;
    }
    Move-Shape (Move.awakes q q') c l held s = record {
      one = ground (arith, s.one);
      permits = ground (arith, s.permits);
      early = s.early;
      unset = λ e. absurd cc;
    }
    Move-Shape (Move.await_wins q) c l held s = record {
      one = ground (arith, s.one);
      permits = ground (arith, s.permits);
      early = λ e. s.early (ground arith);
      unset = s.unset;
    }
    Move-Shape (Move.acquires q) c l held s = record {
      one = ground (arith, s.one);
      permits = ground (arith, s.permits);
      early = s.early;
      unset = λ e. ((s.unset e).0, omega (arith, (s.unset e).1));
    }
    Move-Shape mv c l held s = record {
      one = ground (arith, s.one);
      permits = ground (arith, s.permits);
      early = s.early;
      unset = s.unset;
    }

    -- The thread that moves.
    pub Move-Local_self :
        {m m' : Memory A} {p p' : Pc A}
        → Move i m p m' p'
        → Counted p p'
        → Shape w f r m
        → Local m p
        → Local m' p'
    Move-Local_self (Move.mark_wins {e = e} q) c s l = s.early (ap is_completed q ∙ l)
    Move-Local_self (Move.mark_loads q) c s l = q
    Move-Local_self (Move.await_loads q) c s l = q
    Move-Local_self (Move.resumes q) c s l = λ e. omega (arith, (s.unset e).0 i)
    Move-Local_self (Move.acquires q) c s l = λ e. omega (arith, (s.unset e).1)
    Move-Local_self (Move.takes q) c s l = (refl, l)
    Move-Local_self mv c s l = ground arith

    Move-outcome :
        {m m' : Memory A} {p p' : Pc A}
        → Move i m p m' p'
        → Local m p
        → (m'.outcome ≡ m.outcome) ⊎ ((is_winner p ≡ true) × (m.outcome ≡ none))
    Move-outcome (Move.stores q) l = inr (refl, l)
    Move-outcome (Move.stores_cancelled q) l = inr (refl, l)
    Move-outcome mv l = inl refl

    outcome-kept :
        {m m' : Memory A} {p p' : Pc A} (o : Option (Outcome A))
        → Move i m p m' p'
        → Local m p
        → m.outcome ≡ o
        → o ≢ none
        → m'.outcome ≡ o
    outcome-kept o mv l k set = elim (Move-outcome mv l) [
      | inl same ↦ same ∙ k
      | inr (won, none_yet) ↦ absurd (set (sym k ∙ none_yet))
    ]

    -- Another thread.
    pub Move-Local_other :
        {m m' : Memory A} {p p' : Pc A} (q : Pc A)
        → Move i m p m' p'
        → Counted p p'
        → Shape w f r m
        → Local m p
        → to_nat (is_winner p) + to_nat (is_winner q) ≤ w
        → Local m q
        → Local m' q
    Move-Local_other (Pc.mark_exchange o e) mv c s l two k = k
    Move-Local_other (Pc.store o) mv c s l two k = elim (Move-outcome mv l) [
      | inl same ↦ same ∙ k
      | inr (won, none_yet) ↦ absurd (ground (arith, s.one))
    ]
    Move-Local_other (Pc.release o) mv c s l two k = outcome-kept (some o) mv l k (λ e. absurd cc)
    Move-Local_other (Pc.awake o) mv c s l two k = outcome-kept (some o) mv l k (λ e. absurd cc)
    Move-Local_other (Pc.awake_cancelled o) mv c s l two k =
        outcome-kept (some o) mv l k (λ e. absurd cc)
    Move-Local_other (Pc.finished o) mv c s l two k = outcome-kept (some o) mv l k (λ e. absurd cc)
    Move-Local_other (Pc.await_exchange e) mv c s l two k = k
    Move-Local_other {m = m} Pc.resume mv c s l two k =
        λ e. k (sym (outcome-kept m.outcome mv l refl k) ∙ e)
    Move-Local_other (Pc.got o) mv c s l two k = (outcome-kept o mv l k.0 k.1, k.1)
    Move-Local_other q mv c s l two k = tt
