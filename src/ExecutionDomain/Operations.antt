-- ===== src/ExecutionDomain/Operations.antt =====
-- What the operations keep of the stacks.
use asco.Prelude.{
  ℕ, ◌+◌, ◌≤◌, ◌≡◌, ◌≢◌, refl, sym, ap, ◌∙◌, ◌⊎◌, inl, inr, arith, to_nat, Bool, Option, none, some,
  List, [], ◌∷◌, ◌++◌, update, update_self, update_ne, ℕ_discrete, subst, Option-cases, Bool-cases,
  some-injective, length, ltb,
}
use asco.CycleScheduler.{State}
use asco.ExecutionDomain.{
  Execution, Domain, insert, erase, front, attach_execution, detach_execution, put, set_state,
  stack, stack_of, push_handle, pop_handle,
}
use asco.ExecutionDomain.Stacks.{occurrences, owns, Consistent, update-Consistent}

occurrences_self : (h : ℕ) (q : List ℕ) → occurrences h (h ∷ q) ≡ 1 + occurrences h q
occurrences_self h q = ground arith

occurrences-other : (h y : ℕ) (q : List ℕ) → h ≢ y → occurrences y (h ∷ q) ≡ occurrences y q
occurrences-other h y q apart = ground arith

owns_self : (id : ℕ) → to_nat (owns (some id) id) ≡ 1
owns_self id = ground arith

owns-other : (id x : ℕ) → id ≢ x → to_nat (owns (some id) x) ≡ 0
owns-other id x apart = ground arith

owned_once : (v : Option ℕ) (id x : ℕ) → id ≢ x → 1 ≤ to_nat (owns v id) → to_nat (owns v x) ≡ 0
owned_once v id x apart own = ground arith

to_nat-le : (b : Bool) → to_nat b ≤ 1
to_nat-le b = ground arith

front-rest :
    (h : ℕ) (rest : List ℕ) (id : ℕ)
    → front (h ∷ rest) ≡ some id
    → (rest ≡ []) ⊎ (front rest ≡ some id)
front-rest h [] id own = inl refl
front-rest h (x ∷ rest) id own = inr own

-- The execution's own number is found at the bottom of a stack with a coroutine.
bottom :
    (d : Domain) (id t : ℕ) (rest : List ℕ)
    → Consistent d
    → stack_of d id ≡ t ∷ rest
    → front (t ∷ rest) ≡ some id
bottom d id t rest c filled = elim (c.base id) [
  | inl empty ↦ absurd cc
  | inr own ↦ ap front (sym filled) ∙ own
]

-- `push_handle` of a coroutine that is in no stack, on an execution that has not ended.
pub push_handle-Consistent :
    (d d' : Domain) (id h t : ℕ) (rest : List ℕ) (e : Execution)
    → d.m_executions id ≡ some e
    → e.handle_stack ≡ t ∷ rest
    → d.m_corohandle_exec_map h ≡ none
    → push_handle d id h ≡ some d'
    → Consistent d
    → Consistent d'
unfolding push_handle
push_handle-Consistent d d' id h t rest e there filled fresh runs c =
    let e' : Execution = record e { handle_stack = h ∷ e.handle_stack } in
    let d₂ : Domain = record {
      m_execution_list = d.m_execution_list;
      m_executions = update d.m_executions id (some e');
      m_corohandle_exec_map = update d.m_corohandle_exec_map h (some id);
    } in
    let own : front (t ∷ rest) ≡ some id = bottom d id t rest c (ap stack there ∙ filled) in
    let under : front (h ∷ e.handle_stack) ≡ some id = ap (λ q. front (h ∷ q)) filled ∙ own in
    let pushed : push_handle d id h ≡ some d₂ =
      rw (push_handle, there, under, insert, fresh) refl in
    subst Consistent (some-injective (sym pushed ∙ runs)) (
      update-Consistent d d.m_execution_list id h (some e') (some id) c (inr under)
        (λ y apart.
          occurrences-other h y e.handle_stack apart
          ∙ ap (λ o. occurrences y (stack o)) (sym there))
        (omega (arith, occurrences_self h e.handle_stack, not_there, owns_self id))
        (λ x apart. owns-other id x apart ∙ ap (λ v. to_nat (owns v x)) (sym fresh)))
  where
    not_there : occurrences h e.handle_stack ≡ 0
    not_there =
        ap (λ o. occurrences h (stack o)) (sym there)
        ∙ c.stacks id h
        ∙ ap (λ v. to_nat (owns v id)) fresh

-- `pop_handle` of an execution that has not ended.
pub pop_handle-Consistent :
    (d d' : Domain) (id h : ℕ) (rest : List ℕ) (e : Execution) (o : Option ℕ)
    → d.m_executions id ≡ some e
    → e.handle_stack ≡ h ∷ rest
    → pop_handle d id ≡ some (o, d')
    → Consistent d
    → Consistent d'
unfolding pop_handle
pop_handle-Consistent d d' id h rest e o there filled runs c =
    let e' : Execution = record e { handle_stack = rest } in
    let d₂ : Domain = record {
      m_execution_list = d.m_execution_list;
      m_executions = update d.m_executions id (some e');
      m_corohandle_exec_map = update d.m_corohandle_exec_map h none;
    } in
    let popped : pop_handle d id ≡ some (some h, d₂) = rw (pop_handle, there, filled) refl in
    let own : front (h ∷ rest) ≡ some id = bottom d id h rest c (ap stack there ∙ filled) in
    let all : (y : ℕ) → occurrences y (stack_of d id) ≡ occurrences y (h ∷ rest) =
      λ y. ap (λ x. occurrences y (stack x)) there ∙ ap (occurrences y) filled in
    let here : to_nat (owns (d.m_corohandle_exec_map h) id) ≡ 1 + occurrences h rest =
      sym (c.stacks id h) ∙ all h ∙ occurrences_self h rest in
    subst Consistent (ap (λ r. r.1) (some-injective (sym popped ∙ runs))) (
      update-Consistent d d.m_execution_list id h (some e') none c (front-rest h rest id own)
        (λ y apart. sym (all y ∙ occurrences-other h y rest apart))
        (omega (arith, here, to_nat-le (owns (d.m_corohandle_exec_map h) id)))
        (λ x apart. sym (owned_once (d.m_corohandle_exec_map h) id x apart (omega arith))))

-- `attach_execution` of an execution whose coroutine is in no stack.
pub attach_execution-Consistent :
    (depth : ℕ) (d d' : Domain) (id : ℕ) (parents : List ℕ) (source : ℕ)
    → d.m_executions id ≡ none
    → d.m_corohandle_exec_map id ≡ none
    → attach_execution depth d id parents source ≡ some d'
    → Consistent d
    → Consistent d'
unfolding attach_execution
attach_execution-Consistent depth d d' id parents source free fresh runs c =
    let e' : Execution = record {
      handle_stack = id ∷ [];
      cancel_src_stack = parents ++ source ∷ [];
      cancel_callback_stack = [];
      state = State.active;
    } in
    let d₂ : Domain = record {
      m_execution_list = id ∷ erase id d.m_execution_list;
      m_executions = update d.m_executions id (some e');
      m_corohandle_exec_map = update d.m_corohandle_exec_map id (some id);
    } in
    let done : insert d.m_executions id e' ≡ update d.m_executions id (some e') =
      rw (insert, free) refl in
    let noted : insert d.m_corohandle_exec_map id id ≡ update d.m_corohandle_exec_map id (some id) =
      rw (insert, fresh) refl in
    elim (Bool-cases (ltb (length parents) depth)) [
      | inl fits ↦
          let attached : attach_execution depth d id parents source ≡ some d₂ =
            rw (fits, done, noted) refl in
          subst Consistent (some-injective (sym attached ∙ runs)) (
            update-Consistent d (id ∷ erase id d.m_execution_list) id id (some e') (some id) c
              (inr refl)
              (λ y apart.
                occurrences-other id y [] apart ∙ ap (λ o. occurrences y (stack o)) (sym free))
              (omega (arith, occurrences_self id [], owns_self id))
              (λ x apart. owns-other id x apart ∙ ap (λ v. to_nat (owns v x)) (sym fresh)))
      | inr deep ↦
          let refused : attach_execution depth d id parents source ≡ none = rw deep refl in
          absurd cc
    ]

-- `detach_execution` of an execution that has ended, and whose coroutine is in no other stack.
pub detach_execution-Consistent :
    (d : Domain) (id : ℕ)
    → stack_of d id ≡ []
    → d.m_corohandle_exec_map id ≡ none
    → Consistent d
    → Consistent (detach_execution d id)
unfolding detach_execution
detach_execution-Consistent d id over fresh c =
    update-Consistent d (erase id d.m_execution_list) id id none none c (inl refl)
      (λ y apart. ap (occurrences y) (sym over)) refl
      (λ x apart. ap (λ v. to_nat (owns v x)) (sym fresh))

stack-put :
    (d : Domain) (id : ℕ) (e : Execution)
    → stack (some e) ≡ stack_of d id
    → (x : ℕ) → stack (update d.m_executions id (some e) x) ≡ stack_of d x
stack-put d id e same x = elim (ℕ_discrete id x) [
  | yes this ↦
      subst (λ z. stack (update d.m_executions id (some e) z) ≡ stack_of d z) this
        (ap stack (update_self d.m_executions id (some e)) ∙ same)
  | no other ↦ ap stack (update_ne d.m_executions id x (some e) other)
]

-- An execution whose stack stays as it is.
pub put-Consistent :
    (d : Domain) (id : ℕ) (e : Execution)
    → stack (some e) ≡ stack_of d id
    → Consistent d
    → Consistent (put d id e)
put-Consistent d id e same c = record {
  stacks = λ x y. ap (occurrences y) (stack-put d id e same x) ∙ c.stacks x y;
  base = λ x. subst (λ q. (q ≡ []) ⊎ (front q ≡ some x)) (sym (stack-put d id e same x)) (c.base x);
}

pub set_state-Consistent :
    (d d' : Domain) (id : ℕ) (state : State)
    → set_state d id state ≡ some d'
    → Consistent d
    → Consistent d'
unfolding set_state
set_state-Consistent d d' id state runs c = elim (Option-cases (d.m_executions id)) [
  | inl missing ↦
      let panics : set_state d id state ≡ none = rw (set_state, missing) refl in absurd cc
  | inr (e, there) ↦
      let done : set_state d id state ≡ some (put d id (record e { state = state })) =
        rw (set_state, there) refl in
      subst Consistent (some-injective (sym done ∙ runs))
        (put-Consistent d id (record e { state = state }) (ap stack (sym there)) c)
]
