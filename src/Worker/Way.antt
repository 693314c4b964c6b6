-- ===== src/Worker/Way.antt =====
-- The way down of one round of a worker, written without the stacks and the fuel of the loop.
use mathlib.Core.List.{map, reverse, reverse-cons, map-append}
use asco.Prelude.{
  ℕ, suc, ◌≡◌, refl, sym, ap, ◌∙◌, true, false, Option, none, some, List, [], ◌∷◌, ◌++◌,
  if◌then◌else◌,
}
use asco.Worker.{Action, Answers, Stacks, Exit, back, begin_all, end_all, execute_top, descend}

-- A domain that is passed, the execution that its scheduler names, and that execution's context.
pub record Stop : Type 0 where
  pub domain : ℕ
  pub execution : ℕ
  pub context : ℕ

-- What ends the way.
pub data Finish : Type 0 where
  runs finds_empty finds_starved : Finish

abbrev pub visit : Stop → List Action
visit p = Action.schedules p.domain ∷ Action.schedule_execution p.domain p.execution ∷ []

abbrev pub visits : List Stop → List Action
visits [] = []
visits (p ∷ ps) = visit p ++ visits ps

abbrev pub contexts : List Stop → List ℕ
contexts [] = []
contexts (p ∷ ps) = p.context ∷ contexts ps

abbrev pub domains : List Stop → List ℕ
domains [] = []
domains (p ∷ ps) = p.domain ∷ domains ps

abbrev pub sexecs : List Stop → List (ℕ × ℕ)
sexecs [] = []
sexecs (p ∷ ps) = (p.domain, p.execution) ∷ sexecs ps

-- All contexts are begun, in order, and then ended, in the reverse order.
abbrev pub unwound : List ℕ → List Action
unwound cs = map Action.begins cs ++ map (λ c. Action.ends c false) (reverse cs)

-- What `exit_stack` calls.
abbrev pub unwinding : List ℕ → List Action
unwinding cs = begin_all cs ++ end_all cs

begin_all-map : (cs : List ℕ) → begin_all cs ≡ map Action.begins cs
begin_all-map [] = refl
begin_all-map (c ∷ cs) = ap (λ xs. Action.begins c ∷ xs) (begin_all-map cs)

end_all-map : (cs : List ℕ) → end_all cs ≡ map (λ c. Action.ends c false) (reverse cs)
end_all-map [] = refl
end_all-map (c ∷ cs) =
    ap (λ xs. xs ++ Action.ends c false ∷ []) (end_all-map cs)
    ∙ sym (map-append (λ c. Action.ends c false) (reverse cs) (c ∷ []))
    ∙ ap (map (λ c. Action.ends c false)) (sym (reverse-cons c cs))

pub unwinding_lem : (cs : List ℕ) → unwinding cs ≡ unwound cs
unwinding_lem cs =
    ap (λ xs. xs ++ end_all cs) (begin_all-map cs)
    ∙ ap (λ xs. map Action.begins cs ++ xs) (end_all-map cs)

abbrev pub ends_way : Finish → List Action → Exit
ends_way Finish.finds_empty calls = Exit.returned calls
ends_way _ calls = Exit.executed_once calls

module _ (a : Answers) where
  abbrev pub stop_at : ℕ → Stop
  stop_at d = record { domain = d; execution = (a.schedule d).0; context = (a.schedule d).1 }

  -- The way from a domain down to the last execution, with the stops above it.
  pub data Way : ℕ → List Stop → Stop → Finish → Type 0 where
    run : {d : ℕ} → a.get_subdomain (a.schedule d).0 ≡ none → Way d [] (stop_at d) Finish.runs
    empty :
        {d d' : ℕ}
        → a.get_subdomain (a.schedule d).0 ≡ some d'
        → a.is_empty d' ≡ true
        → Way d [] (stop_at d) Finish.finds_empty
    starved :
        {d d' : ℕ}
        → a.get_subdomain (a.schedule d).0 ≡ some d'
        → a.is_empty d' ≡ false
        → a.has_active_execution d' ≡ false
        → Way d [] (stop_at d) Finish.finds_starved
    down :
        {d d' : ℕ} {above : List Stop} {last : Stop} {f : Finish}
        → a.get_subdomain (a.schedule d).0 ≡ some d'
        → a.is_empty d' ≡ false
        → a.has_active_execution d' ≡ true
        → Way d' above last f
        → Way d (stop_at d ∷ above) last f

  -- The calls after all stops have been scheduled.
  abbrev pub end_calls : List ℕ → Stop → Finish → List Action
  end_calls cs p Finish.runs =
      Action.executes p.execution cs
      ∷ (if a.execute p.execution cs
          then []
          else Action.removes_meta p.execution
            ∷ Action.detach_suspended_execution p.domain p.execution
            ∷ Action.detach_execution p.domain p.execution
            ∷ [])
  end_calls cs p Finish.finds_empty = Action.remove_subdomain p.execution ∷ unwound cs
  end_calls cs p Finish.finds_starved = Action.suspend_current p.domain p.execution ∷ unwound cs

  abbrev pub all_calls : List Stop → Stop → Finish → List Action
  all_calls above p f =
      let stops = above ++ p ∷ [] in visits stops ++ end_calls (contexts stops) p f

  abbrev pub stacks_at : List Stop → ℕ → Stacks
  stacks_at above d = record {
    domains = domains above ++ d ∷ [];
    contexts = contexts above;
    sexecs = sexecs above;
    calls = visits above;
  }

pub visits-append : (ps : List Stop) (p : Stop) → visits (ps ++ p ∷ []) ≡ visits ps ++ visit p
visits-append [] p = refl
visits-append (q ∷ ps) p = ap (λ xs. visit q ++ xs) (visits-append ps p)

pub contexts-append :
    (ps : List Stop) (p : Stop) → contexts (ps ++ p ∷ []) ≡ contexts ps ++ p.context ∷ []
contexts-append [] p = refl
contexts-append (q ∷ ps) p = ap (λ xs. q.context ∷ xs) (contexts-append ps p)

pub domains-append :
    (ps : List Stop) (p : Stop) → domains (ps ++ p ∷ []) ≡ domains ps ++ p.domain ∷ []
domains-append [] p = refl
domains-append (q ∷ ps) p = ap (λ xs. q.domain ∷ xs) (domains-append ps p)

pub sexecs-append :
    (ps : List Stop) (p : Stop) → sexecs (ps ++ p ∷ []) ≡ sexecs ps ++ (p.domain, p.execution) ∷ []
sexecs-append [] p = refl
sexecs-append (q ∷ ps) p = ap (λ xs. (q.domain, q.execution) ∷ xs) (sexecs-append ps p)

pub back-append : (d x : ℕ) (xs : List ℕ) → back d (xs ++ x ∷ []) ≡ x
back-append d x [] = refl
back-append d x (y ∷ xs) = back-append y x xs

module _ (a : Answers) where
  -- The stacks after the domain on top has been scheduled.
  abbrev pub scheduled : List Stop → ℕ → Stacks
  scheduled above d =
      let p = stop_at a d in
      record {
        domains = domains above ++ d ∷ [];
        contexts = contexts above ++ p.context ∷ [];
        sexecs = sexecs above ++ (d, p.execution) ∷ [];
        calls = visits above ++ visit p;
      }

  abbrev pub deeper : List Stop → ℕ → ℕ → Stacks
  deeper above d d' = record (scheduled above d) { domains = (domains above ++ d ∷ []) ++ d' ∷ [] }

  -- The loop on a domain, by what its scheduler and its execution answer.
  module _ (k d : ℕ) (above : List Stop) where
    abbrev pub exec : ℕ
    exec = (stop_at a d).execution

    abbrev pub loop : Option Exit
    loop = descend a (suc k) d (stacks_at a above d)

    pub loop_runs :
        a.get_subdomain exec ≡ none → loop ≡ some (execute_top a (scheduled above d) exec)
    unfolding descend
    loop_runs h = rw (h, descend) refl

    pub loop_removes :
        (d' : ℕ)
        → a.get_subdomain exec ≡ some d'
        → a.is_empty d' ≡ true
        → loop
          ≡ some (
              Exit.returned (
                ((scheduled above d).calls ++ Action.remove_subdomain exec ∷ [])
                ++ unwinding (scheduled above d).contexts))
    unfolding descend
    loop_removes d' h e = rw (h, descend, e) refl

    pub loop_suspends :
        (d' : ℕ)
        → a.get_subdomain exec ≡ some d'
        → a.is_empty d' ≡ false
        → a.has_active_execution d' ≡ false
        → loop
          ≡ some (
              Exit.executed_once (
                ((scheduled above d).calls
                  ++ Action.suspend_current (a.get_parent_domain d') exec ∷ [])
                ++ unwinding (scheduled above d).contexts))
    unfolding descend
    loop_suspends d' h e f = rw (h, descend, e, f) refl

    pub loop_goes_down :
        (d' : ℕ)
        → a.get_subdomain exec ≡ some d'
        → a.is_empty d' ≡ false
        → a.has_active_execution d' ≡ true
        → loop ≡ descend a k d' (deeper above d d')
    unfolding descend
    loop_goes_down d' h e f = rw (h, descend, e, f) refl
