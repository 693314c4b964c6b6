-- ===== src/ExecutionDomain/Calls.antt =====
-- The calls of a worker on a domain.
use asco.Prelude.{
  ℕ, ◌≡◌, ◌⊎◌, ◌≤◌, ◌↔◌, refl, inl, arith, sym, ◌∙◌, to_nat, Option, none, some, List, [], ◌∷◌,
}
use asco.CycleScheduler.{State}
use asco.ExecutionDomain.{
  Execution, Domain, front, attach_execution, detach_execution, set_state, stack_of,
  execution_of_coroutine, push_handle, pop_handle,
}
use asco.ExecutionDomain.Stacks.{occurrences, owns, Consistent}
use asco.ExecutionDomain.Operations.{
  push_handle-Consistent, pop_handle-Consistent, attach_execution-Consistent,
  detach_execution-Consistent, set_state-Consistent,
}

abbrev pub new : Domain
new = record { m_execution_list = []; m_executions = λ _. none; m_corohandle_exec_map = λ _. none }

-- A coroutine that is attached or pushed is in no stack yet, and an execution is detached when it has ended.
pub data Call (d : Domain) : Domain → Type 0 where
  attaches :
      {d' : Domain} (depth id : ℕ) (parents : List ℕ) (source : ℕ)
      → d.m_executions id ≡ none
      → d.m_corohandle_exec_map id ≡ none
      → attach_execution depth d id parents source ≡ some d'
      → Call d d'
  detaches :
      (id : ℕ)
      → stack_of d id ≡ []
      → d.m_corohandle_exec_map id ≡ none
      → Call d (detach_execution d id)
  sets : {d' : Domain} (id : ℕ) (state : State) → set_state d id state ≡ some d' → Call d d'
  pushes :
      {d' : Domain} (id h t : ℕ) (rest : List ℕ) (e : Execution)
      → d.m_executions id ≡ some e
      → e.handle_stack ≡ t ∷ rest
      → d.m_corohandle_exec_map h ≡ none
      → push_handle d id h ≡ some d'
      → Call d d'
  pops :
      {d' : Domain} (id h : ℕ) (rest : List ℕ) (e : Execution) (o : Option ℕ)
      → d.m_executions id ≡ some e
      → e.handle_stack ≡ h ∷ rest
      → pop_handle d id ≡ some (o, d')
      → Call d d'

pub data Calls (d : Domain) : Domain → Type 0 where
  none_yet : Calls d d
  and_then : {b c : Domain} → Calls d b → Call b c → Calls d c

Call-Consistent : {d d' : Domain} → Call d d' → Consistent d → Consistent d'
Call-Consistent {d} (attaches {d' = d'} depth id parents source free fresh runs) c =
    attach_execution-Consistent depth d d' id parents source free fresh runs c
Call-Consistent {d} (detaches id over fresh) c = detach_execution-Consistent d id over fresh c
Call-Consistent {d} (sets {d' = d'} id state runs) c = set_state-Consistent d d' id state runs c
Call-Consistent {d} (pushes {d' = d'} id h t rest e there filled fresh runs) c =
    push_handle-Consistent d d' id h t rest e there filled fresh runs c
Call-Consistent {d} (pops {d' = d'} id h rest e o there filled runs) c =
    pop_handle-Consistent d d' id h rest e o there filled runs c

Calls-Consistent : {d d' : Domain} → Calls d d' → Consistent d → Consistent d'
Calls-Consistent none_yet c = c
Calls-Consistent (and_then calls call) c = Call-Consistent call (Calls-Consistent calls c)

new-Consistent : Consistent new
new-Consistent = record { stacks = λ id h. refl; base = λ id. inl refl }

owner : (v : Option ℕ) (id : ℕ) → (to_nat (owns v id) ≡ 1) ↔ (v ≡ some id)
owner v id = ground arith

owned-le : (v : Option ℕ) (id : ℕ) → to_nat (owns v id) ≤ 1
owned-le v id = ground arith

-- From an empty domain, and if only new coroutines are attached and pushed and only ended
-- executions detached, `execution_of_coroutine` of a coroutine is an execution exactly when the
-- coroutine is in the stack of that execution, no stack has a coroutine twice, and at the bottom of
-- a stack that is not empty stands the execution itself.
pub execution_of_coroutine_lem :
    {d : Domain} (id h : ℕ)
    → Calls new d
    → ((occurrences h (stack_of d id) ≡ 1) ↔ (execution_of_coroutine d h ≡ some id))
      × (occurrences h (stack_of d id) ≤ 1)
      × ((stack_of d id ≡ []) ⊎ (front (stack_of d id) ≡ some id))
execution_of_coroutine_lem {d} id h calls = (
  (
    λ once. (owner (d.m_corohandle_exec_map h) id).0 (sym (c.stacks id h) ∙ once),
    λ known. c.stacks id h ∙ (owner (d.m_corohandle_exec_map h) id).1 known,
  ),
  omega (arith, c.stacks id h, owned-le (d.m_corohandle_exec_map h) id),
  c.base id,
)
  where
    c : Consistent d
    c = Calls-Consistent calls new-Consistent
