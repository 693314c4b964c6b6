-- ===== src/Executor/Cleanup.antt =====
-- A cancelled execution is taken down from the top.
use asco.Prelude.{
  ℕ, ◌≡◌, ◌≢◌, refl, sym, ap, ◌∙◌, true, false, none, some, List, [], ◌∷◌, ◌++◌, length,
  append_assoc, append-nil, update, update_self, update_ne,
}
use asco.ExecutionDomain.{Execution, Domain, put, stack, stack_of, pop_handle}
use asco.Executor.{
  Event, World, note, any_requested, invoke_from, invoke_callbacks, destroy_all, cancel_cleanup,
}

abbrev pub called : List ℕ → List Event
called [] = []
called (f ∷ fs) = Event.calls f ∷ called fs

abbrev pub destroyed : List ℕ → List Event
destroyed [] = []
destroyed (h ∷ hs) = Event.destroys h ∷ destroyed hs

-- What is left of an execution that is taken down.
pub record TakenDown (w : World) (id : ℕ) (events : List Event) (w' : World) : Type 0 where
  pub empty : stack_of w'.domain id ≡ []
  pub others : (x : ℕ) → id ≢ x → w'.domain.m_executions x ≡ w.domain.m_executions x
  pub seen : w'.log ≡ w.log ++ events

invoke_from-log :
    (fs : List ℕ) (w : World) → invoke_from fs w ≡ record w { log = w.log ++ called fs }
unfolding invoke_from
invoke_from-log [] w = ap (λ l. record w { log = l }) (sym (append-nil w.log))
invoke_from-log (f ∷ fs) w =
    invoke_from-log fs (note w (Event.calls f))
    ∙ ap (λ l. record w { log = l }) (append_assoc w.log (Event.calls f ∷ []) (called fs))

pop_top :
    (d : Domain) (id h : ℕ) (rest : List ℕ) (e : Execution)
    → d.m_executions id ≡ some e
    → e.handle_stack ≡ h ∷ rest
    → pop_handle d id
      ≡ some (
        some h,
        record {
          m_execution_list = d.m_execution_list;
          m_executions = update d.m_executions id (some (record e { handle_stack = rest }));
          m_corohandle_exec_map = update d.m_corohandle_exec_map h none;
        },
      )
unfolding pop_handle
pop_top d id h rest e there filled = rw (pop_handle, there, filled) refl

record Destroyed (hs : List ℕ) (w : World) (id : ℕ) : Type 0 where
  left : World
  runs : destroy_all (length hs) w id ≡ some left
  down : TakenDown w id (destroyed hs) left

destroy_all-Destroyed :
    (hs : List ℕ) (w : World) (id : ℕ) (e : Execution)
    → w.domain.m_executions id ≡ some e
    → e.handle_stack ≡ hs
    → Destroyed hs w id
unfolding destroy_all
destroy_all-Destroyed [] w id e there filled = record {
  left = w;
  runs = refl;
  down = record {
    empty = ap stack there ∙ filled;
    others = λ x apart. refl;
    seen = sym (append-nil w.log);
  };
}
destroy_all-Destroyed (h ∷ hs) w id e there filled =
    let e' : Execution = record e { handle_stack = hs } in
    let d : Domain = record {
      m_execution_list = w.domain.m_execution_list;
      m_executions = update w.domain.m_executions id (some e');
      m_corohandle_exec_map = update w.domain.m_corohandle_exec_map h none;
    } in
    let w₁ : World = note (record w { domain = d }) (Event.destroys h) in
    let rest : Destroyed hs w₁ id =
      destroy_all-Destroyed hs w₁ id e' (update_self w.domain.m_executions id (some e')) refl in
    record {
      left = rest.left;
      runs = rw (destroy_all, pop_top w.domain id h hs e there filled) rest.runs;
      down = record {
        empty = rest.down.empty;
        others = λ x apart.
            rest.down.others x apart ∙ update_ne w.domain.m_executions id x (some e') apart;
        seen = rest.down.seen ∙ append_assoc w.log (Event.destroys h ∷ []) (destroyed hs);
      };
    }

-- `cancel_cleanup` of an execution with a cancelled source.
pub record CleanedUp (sources : List ℕ) (w : World) (id : ℕ) (e : Execution) : Type 0 where
  pub left : World
  pub runs : cancel_cleanup sources w id ≡ some (true, left)
  pub down : TakenDown w id (called e.cancel_callback_stack ++ destroyed e.handle_stack) left

-- If any of its sources is cancelled, `cancel_cleanup` takes the execution down: it calls the callbacks,
-- the last one registered first, then destroys the coroutines from the top of the stack, each once,
-- leaves the stack empty and the other executions as they were, and returns true; if none is
-- cancelled, it changes nothing and returns false.
pub cancel_cleanup-CleanedUp :
    (sources : List ℕ) (w : World) (id : ℕ) (e : Execution)
    → w.domain.m_executions id ≡ some e
    → (any_requested w.requested sources ≡ true → CleanedUp sources w id e)
      × (any_requested w.requested sources ≡ false → cancel_cleanup sources w id ≡ some (false, w))
unfolding cancel_cleanup invoke_callbacks
cancel_cleanup-CleanedUp sources w id e there = (
  λ asked.
      let calling : World = record w { log = w.log ++ called e.cancel_callback_stack } in
      let e' : Execution = record e { cancel_callback_stack = [] } in
      let w₁ : World = record calling { domain = put w.domain id e' } in
      let invoked : invoke_callbacks w id e ≡ w₁ =
        ap (λ (v : World). record v { domain = put v.domain id e' })
          (invoke_from-log e.cancel_callback_stack w) in
      let torn : Destroyed e.handle_stack w₁ id =
        destroy_all-Destroyed e.handle_stack w₁ id e'
          (update_self w.domain.m_executions id (some e')) refl in
      record {
        left = torn.left;
        runs = rw (cancel_cleanup, there, asked, invoked, torn.runs) refl;
        down = record {
          empty = torn.down.empty;
          others = λ x apart.
              torn.down.others x apart ∙ update_ne w.domain.m_executions id x (some e') apart;
          seen =
              torn.down.seen
              ∙ append_assoc w.log (called e.cancel_callback_stack) (destroyed e.handle_stack);
        };
      },
  λ calm. rw (cancel_cleanup, there, calm) refl,
)
