-- ===== src/Executor/Turn.antt =====
-- What a turn returns and tells its contexts.
use asco.Prelude.{
  ℕ, ◌≡◌, refl, sym, ap, ◌∙◌, ◌↔◌, inl, inr, Bool, true, false, not, Option, some, List, [], ◌∷◌,
  ◌++◌, append_assoc, Bool-cases, subst,
}
use mathlib.Core.List.{map, reverse, reverse-cons, map-append}
use asco.ExecutionDomain.{Execution, stack, stack_of}
use asco.Executor.{
  Event, World, note, any_requested, cancel_cleanup, begin_all, end_all, exit_stack, after_resume,
  execute,
}
use asco.Executor.Cleanup.{called, destroyed, CleanedUp, cancel_cleanup-CleanedUp}

-- What the contexts are told at the end, the innermost first: it alone may be told that the execution completed.
abbrev pub told : Bool → List ℕ → List Event
told completed [] = []
told completed (ctx ∷ ctxs) = Event.ends ctx completed ∷ map (λ c. Event.ends c false) ctxs

told-append :
    (completed : Bool) (cs : List ℕ) (y c : ℕ)
    → told completed ((cs ++ y ∷ []) ++ c ∷ [])
      ≡ told completed (cs ++ y ∷ []) ++ Event.ends c false ∷ []
told-append completed [] y c = refl
told-append completed (x ∷ cs) y c =
    ap (λ es. Event.ends x completed ∷ es)
      (map-append (λ c. Event.ends c false) (cs ++ y ∷ []) (c ∷ []))

end_all-told : (cs : List ℕ) (completed : Bool) → end_all cs completed ≡ told completed (reverse cs)
end_all-told [] completed = refl
end_all-told (c ∷ []) completed = refl
end_all-told (c ∷ c' ∷ cs) completed =
    ap (λ es. es ++ Event.ends c false ∷ [])
      (end_all-told (c' ∷ cs) completed ∙ ap (told completed) (reverse-cons c' cs))
    ∙ sym (told-append completed (reverse cs) c' c)
    ∙ ap (λ xs. told completed (xs ++ c ∷ [])) (sym (reverse-cons c' cs))
    ∙ ap (told completed) (sym (reverse-cons c (c' ∷ cs)))

begin_all-map : (cs : List ℕ) → begin_all cs ≡ map Event.begins cs
begin_all-map [] = refl
begin_all-map (c ∷ cs) = ap (λ es. Event.begins c ∷ es) (begin_all-map cs)

-- A turn of the execution `id` with the coroutine `h` on top: what it returns, and what it leaves in the log.
pub record Turn (w : World) (id h : ℕ) (ctxs : List ℕ) (r : Option (Bool × World)) : Type 0 where
  pub goes_on : Bool
  pub after : World
  pub middle : List Event
  pub returns : r ≡ some (goes_on, after)
  pub seen :
      after.log ≡ w.log ++ (map Event.begins ctxs ++ (middle ++ told (not goes_on) (reverse ctxs)))
  pub exact : (goes_on ≡ false) ↔ (stack_of after.domain id ≡ [])
  pub resumed : goes_on ≡ true → (more : List Event) × (middle ≡ Event.resumes h ∷ more)

module _ (resume : ℕ → World → World) (id h : ℕ) (ctxs : List ℕ) (w : World) where
  abbrev begun : List Event
  begun = w.log ++ begin_all ctxs

  seen_after :
      (log middle : List Event) (completed : Bool)
      → log ≡ begun ++ middle
      → log ++ end_all ctxs completed
        ≡ w.log ++ (map Event.begins ctxs ++ (middle ++ told completed (reverse ctxs)))
  seen_after log middle completed e =
      ap (λ l. l ++ end_all ctxs completed)
        (e ∙ ap (λ bs. (w.log ++ bs) ++ middle) (begin_all-map ctxs))
      ∙ ap (λ es. ((w.log ++ map Event.begins ctxs) ++ middle) ++ es) (end_all-told ctxs completed)
      ∙ append_assoc (w.log ++ map Event.begins ctxs) middle (told completed (reverse ctxs))
      ∙ append_assoc w.log (map Event.begins ctxs) (middle ++ told completed (reverse ctxs))

  over :
      (r : Option (Bool × World)) (v : World) (middle : List Event)
      → r ≡ some (false, exit_stack ctxs true v)
      → stack_of v.domain id ≡ []
      → v.log ≡ begun ++ middle
      → Turn w id h ctxs r
  over r v middle e empty log = record {
    goes_on = false;
    after = exit_stack ctxs true v;
    middle = middle;
    returns = e;
    seen = seen_after v.log middle true log;
    exact = (λ _. empty, λ _. refl);
    resumed = λ e'. absurd cc;
  }

  under :
      (q : List ℕ) (sources : List ℕ) (v : World) (e : Execution) (more : List Event)
      → v.domain.m_executions id ≡ some e
      → e.handle_stack ≡ q
      → cancel_cleanup sources v id ≡ some (false, v)
      → v.log ≡ begun ++ Event.resumes h ∷ more
      → Turn w id h ctxs (after_resume resume sources v id ctxs)
  unfolding after_resume
  under [] sources v e more there empty runs log =
      let none_left : stack_of v.domain id ≡ [] = ap stack there ∙ empty in
      over (after_resume resume sources v id ctxs) v (Event.resumes h ∷ more)
        (rw (after_resume, runs, there, empty) refl) none_left log
  under (x ∷ rest) sources v e more there filled runs log = record {
    goes_on = true;
    after = exit_stack ctxs false v;
    middle = Event.resumes h ∷ more;
    returns = rw (after_resume, runs, there, filled) refl;
    seen = seen_after v.log (Event.resumes h ∷ more) false log;
    exact = (
      λ e'. absurd cc,
      λ empty.
          let some_left : stack_of v.domain id ≡ x ∷ rest = ap stack there ∙ filled in absurd cc,
    );
    resumed = λ _. (more, refl);
  }

  after_resume-Turn :
      (sources : List ℕ) (v : World) (e : Execution) (more : List Event)
      → v.domain.m_executions id ≡ some e
      → v.log ≡ begun ++ Event.resumes h ∷ more
      → Turn w id h ctxs (after_resume resume sources v id ctxs)
  unfolding after_resume
  after_resume-Turn sources v e more there log =
      elim (Bool-cases (any_requested v.requested sources)) [
        | inl asked ↦
            let c : CleanedUp sources v id e =
              (cancel_cleanup-CleanedUp sources v id e there).0 asked in
            let events = called e.cancel_callback_stack ++ destroyed e.handle_stack in
            over (after_resume resume sources v id ctxs) c.left (Event.resumes h ∷ more ++ events)
              (rw (after_resume, c.runs) refl) c.down.empty
              (c.down.seen
                ∙ ap (λ l. l ++ events) log
                ∙ append_assoc begun (Event.resumes h ∷ more) events)
        | inr calm ↦
            under e.handle_stack sources v e more there refl
              ((cancel_cleanup-CleanedUp sources v id e there).1 calm) log
      ]

  -- A turn of an execution that is there and has a coroutine on top, with coroutines that leave the
  -- execution in its domain and the log's past as it is, ends without a failed assertion. It begins all contexts, in
  -- order, and at its end tells all of them, in the reverse order. It returns false exactly if no
  -- coroutine is left, be it that the last one returned or that a source was cancelled before or after
  -- the coroutine ran; then the innermost context is told that the execution completed, and the
  -- others never are. If it returns true, the coroutine was resumed, after all contexts had begun.
  pub execute-Turn :
      (e : Execution) (rest : List ℕ)
      → w.domain.m_executions id ≡ some e
      → e.handle_stack ≡ h ∷ rest
      → ((v : World)
          → v.domain.m_executions id ≡ some e
          → (e' : Execution) × ((resume h v).domain.m_executions id ≡ some e')
            × (more : List Event) × ((resume h v).log ≡ v.log ++ more))
      → Turn w id h ctxs (execute resume w id ctxs)
  unfolding execute
  execute-Turn e rest there filled keeps =
      let started : World = record w { log = begun } in
      elim (Bool-cases (any_requested w.requested e.cancel_src_stack)) [
        | inl asked ↦
            let c : CleanedUp e.cancel_src_stack started id e =
              (cancel_cleanup-CleanedUp e.cancel_src_stack started id e there).0 asked in
            over (execute resume w id ctxs) c.left
              (called e.cancel_callback_stack ++ destroyed e.handle_stack)
              (rw (execute, there, filled, c.runs) refl) c.down.empty c.down.seen
        | inr calm ↦
            let goes : cancel_cleanup e.cancel_src_stack started id ≡ some (false, started) =
              (cancel_cleanup-CleanedUp e.cancel_src_stack started id e there).1 calm in
            let u : World = note started (Event.resumes h) in
            let v : World = resume h u in
            let (e', kept, more, log) = keeps u there in
            let same : execute resume w id ctxs ≡ after_resume resume e.cancel_src_stack v id ctxs =
              rw (execute, there, filled, goes) refl in
            subst (Turn w id h ctxs) (sym same) (
              after_resume-Turn e.cancel_src_stack v e' more kept
                (log ∙ append_assoc begun (Event.resumes h ∷ []) more))
      ]
