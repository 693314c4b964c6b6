-- ===== src/Worker/Turn.antt =====
-- What one round of a worker does, against the way down.
use asco.Prelude.{
  ℕ, zero, suc, ◌<◌, ◌≡◌, refl, sym, ap, ◌∙◌, arith, inl, inr, Bool, true, false, not, ◌||◌,
  Bool-cases, some, Option-cases, List, [], ◌∷◌, ◌++◌, append_assoc, append-nil, if◌then◌else◌,
}
use asco.Worker.{Action, Answers, Exit, execute_top, descend, run_once}
use asco.Worker.Way.{
  Stop, Finish, visit, visits, contexts, domains, unwound, unwinding, unwinding_lem, stop_at, Way,
  run, empty, starved, down, end_calls, all_calls, ends_way, stacks_at, visits-append,
  contexts-append, domains-append, sexecs-append, back-append, scheduled, deeper, loop_runs,
  loop_removes, loop_suspends, loop_goes_down,
}

-- What `run_once` returns.
abbrev pub goes_on : Finish → Bool → Bool
goes_on Finish.finds_empty after_stop = true
goes_on _ after_stop = after_stop

module _ (a : Answers) where
  -- What is called on a stack, by the domain on its top.
  abbrev top_calls : ℕ → ℕ → List Action → List ℕ → List Action
  top_calls domain exec calls cs =
      let ran = calls ++ Action.executes exec cs ∷ [] in
      if a.execute exec cs
      then ran
      else ran
        ++ Action.removes_meta exec
          ∷ Action.detach_suspended_execution domain exec
          ∷ Action.detach_execution domain exec
          ∷ []

  top_calls_lem :
      (p : Stop) (calls : List Action) (cs : List ℕ)
      → top_calls p.domain p.execution calls cs ≡ calls ++ end_calls a cs p Finish.runs
  top_calls_lem p calls cs = elim (Bool-cases (a.execute p.execution cs)) [
    | inl goes_on ↦ rw goes_on refl
    | inr completes ↦ rw completes (append_assoc calls _ _)
  ]

  ran :
      (above : List Stop) (d : ℕ)
      → execute_top a (scheduled a above d) (stop_at a d).execution
        ≡ ends_way Finish.runs (all_calls a above (stop_at a d) Finish.runs)
  unfolding execute_top
  ran above d =
      let p = stop_at a d in
      ap
        (λ x.
          Exit.executed_once
            (top_calls x p.execution (visits above ++ visit p) (contexts above ++ p.context ∷ [])))
        (back-append 0 d (domains above))
      ∙ ap Exit.executed_once (
          rw (visits-append above p, contexts-append above p)
            (top_calls_lem p (visits above ++ visit p) (contexts above ++ p.context ∷ [])))

  unwound_after :
      (above : List Stop) (d : ℕ) (x : Action)
      → let s = scheduled a above d in
        (s.calls ++ x ∷ []) ++ unwinding s.contexts
        ≡ visits (above ++ stop_at a d ∷ []) ++ x ∷ unwound (contexts (above ++ stop_at a d ∷ []))
  unwound_after above d x =
      let p = stop_at a d in
      rw (visits-append above p, contexts-append above p)
        (append_assoc _ (x ∷ []) _
          ∙ ap (λ xs. (visits above ++ visit p) ++ x ∷ xs)
              (unwinding_lem (contexts above ++ p.context ∷ [])))

  deeper_lem :
      (above : List Stop) (d d' : ℕ)
      → deeper a above d d' ≡ stacks_at a (above ++ stop_at a d ∷ []) d'
  deeper_lem above d d' =
      let p = stop_at a d in
      rw
        (
          visits-append above p,
          contexts-append above p,
          domains-append above p,
          sexecs-append above p,
        )
        refl

  -- The end of the way from a domain, and that the loop follows the way to it.
  record Follows (k d : ℕ) (before : List Stop) : Type 0 where
    pub above : List Stop
    pub last : Stop
    pub finish : Finish
    pub way : Way a d above last finish
    pub same :
        descend a k d (stacks_at a before d)
        ≡ some (ends_way finish (all_calls a (before ++ above) last finish))

  -- A way that ends at its first stop.
  stop-Follows :
      (k d : ℕ) (before : List Stop) (f : Finish)
      → Way a d [] (stop_at a d) f
      → descend a k d (stacks_at a before d)
        ≡ some (ends_way f (all_calls a before (stop_at a d) f))
      → Follows k d before
  stop-Follows k d before f way same = record {
    above = [];
    last = stop_at a d;
    finish = f;
    way = way;
    same =
        same
        ∙ ap (λ ps. some (ends_way f (all_calls a ps (stop_at a d) f))) (sym (append-nil before));
  }

  down-Follows :
      (k d d' : ℕ) (before : List Stop)
      → a.get_subdomain (a.schedule d).0 ≡ some d'
      → a.is_empty d' ≡ false
      → a.has_active_execution d' ≡ true
      → Follows k d' (before ++ stop_at a d ∷ [])
      → Follows (suc k) d before
  down-Follows k d d' before h filled active rest = record {
    above = stop_at a d ∷ rest.above;
    last = rest.last;
    finish = rest.finish;
    way = down h filled active rest.way;
    same =
        loop_goes_down a k d before d' h filled active
        ∙ ap (descend a k d') (deeper_lem before d d')
        ∙ rest.same
        ∙ ap (λ ps. some (ends_way rest.finish (all_calls a ps rest.last rest.finish)))
            (append_assoc before (stop_at a d ∷ []) rest.above);
  }

  round_lem :
      (k root : ℕ) (stop_requested fetched fetched_again : Bool)
      → a.has_active_execution root ≡ true
      → (f : Finish) (calls : List Action)
      → descend a k root (stacks_at a [] root) ≡ some (ends_way f calls)
      → run_once a k root stop_requested fetched fetched_again
        ≡ some (goes_on f (not stop_requested || not (a.is_empty root) || fetched_again), calls)
  unfolding run_once
  round_lem k root st true again active Finish.runs calls same = rw (active, same) refl
  round_lem k root st true again active Finish.finds_empty calls same = rw (active, same) refl
  round_lem k root st true again active Finish.finds_starved calls same = rw (active, same) refl
  round_lem k root st false again active Finish.runs calls same = rw (active, same) refl
  round_lem k root st false again active Finish.finds_empty calls same = rw (active, same) refl
  round_lem k root st false again active Finish.finds_starved calls same = rw (active, same) refl

  -- A domain that an execution holds has the execution's domain for its parent, and a rank falls on the way.
  module _
      (parent : (d d' : ℕ)
        → a.get_subdomain (a.schedule d).0 ≡ some d'
        → a.get_parent_domain d' ≡ d)
      (rank : ℕ → ℕ)
      (falls : (d d' : ℕ) → a.get_subdomain (a.schedule d).0 ≡ some d' → rank d' < rank d) where
    starved-Follows :
        (k d d' : ℕ) (before : List Stop)
        → a.get_subdomain (a.schedule d).0 ≡ some d'
        → a.is_empty d' ≡ false
        → a.has_active_execution d' ≡ false
        → Follows (suc k) d before
    starved-Follows k d d' before h filled idle =
        let exec = (stop_at a d).execution in
        stop-Follows (suc k) d before Finish.finds_starved (starved h filled idle) (
          loop_suspends a k d before d' h filled idle
          ∙ ap
              (λ x. some (
                Exit.executed_once (
                  ((scheduled a before d).calls ++ Action.suspend_current x exec ∷ [])
                  ++ unwinding (scheduled a before d).contexts)))
              (parent d d' h)
          ∙ ap (λ xs. some (Exit.executed_once xs))
              (unwound_after before d (Action.suspend_current d exec)))

    way-Follows : (k d : ℕ) (before : List Stop) → rank d < k → Follows k d before
    way-Follows zero d before low = absurd (omega (arith, low))
    way-Follows (suc k) d before low = elim (Option-cases (a.get_subdomain (a.schedule d).0)) [
      | inl h ↦
          stop-Follows (suc k) d before Finish.runs (run h)
            (loop_runs a k d before h ∙ ap some (ran before d))
      | inr (d', h) ↦ elim (Bool-cases (a.is_empty d')) [
        | inl gone ↦ stop-Follows (suc k) d before Finish.finds_empty (empty h gone) (
            loop_removes a k d before d' h gone
            ∙ ap (λ xs. some (Exit.returned xs))
                (unwound_after before d (Action.remove_subdomain (stop_at a d).execution)))
        | inr filled ↦ elim (Bool-cases (a.has_active_execution d')) [
          | inl active ↦
              down-Follows k d d' before h filled active
                (way-Follows k d' (before ++ stop_at a d ∷ []) (omega (arith, falls d d' h, low)))
          | inr idle ↦ starved-Follows k d d' before h filled idle
        ]
      ]
    ]

    -- A round with an active execution, where executions hold domains whose parent is the one they are
    -- in and a rank falls along these: with fuel one more than the rank of its root it ends. The nested
    -- domains form a way down, and the calls that the round makes are those which the way names: each
    -- domain on it is scheduled, once, in the order of the way. If the last execution holds none, it is
    -- executed with all contexts, and is detached from its own domain if it completes. If it holds an empty
    -- domain, this is removed and the round returns true; if it holds one without an active execution, the
    -- last execution is suspended in its own domain; both begin all contexts, in order, and end them in the
    -- reverse order.
    pub run_once_lem :
        (root : ℕ) (stop_requested fetched fetched_again : Bool)
        → a.has_active_execution root ≡ true
        → (above : List Stop) × (last : Stop) × (f : Finish) × Way a root above last f
          × (run_once a (suc (rank root)) root stop_requested fetched fetched_again
              ≡ some (
                goes_on f (not stop_requested || not (a.is_empty root) || fetched_again),
                all_calls a above last f,
              ))
    unfolding run_once
    run_once_lem root stop_requested fetched fetched_again active =
        let way = way-Follows (suc (rank root)) root [] (omega arith) in
        (
          way.above,
          way.last,
          way.finish,
          way.way,
          round_lem (suc (rank root)) root stop_requested fetched fetched_again active way.finish
              (all_calls a way.above way.last way.finish) way.same,
        )
