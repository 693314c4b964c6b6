-- ===== src/ExecutionDomain/Stacks.antt =====
-- The map from coroutines to executions is the stacks of the executions, read backwards.
use asco.Prelude.{
  ℕ, ◌+◌, ◌≡◌, ◌≢◌, sym, ap, ◌∙◌, ◌⊎◌, to_nat, Bool, false, Option, none, some, List, [], ◌∷◌,
  update, update_self, update_ne, ℕ_discrete, subst, ◌==◌,
}
use asco.ExecutionDomain.{Execution, Domain, front, stack, stack_of}

abbrev pub occurrences : ℕ → List ℕ → ℕ
occurrences h [] = 0
occurrences h (x ∷ xs) = to_nat (x == h) + occurrences h xs

-- Does the map give this execution?
abbrev pub owns : Option ℕ → ℕ → Bool
owns none id = false
owns (some x) id = x == id

pub record Consistent (d : Domain) : Type 0 where
  -- A coroutine is once in the stack of the execution that the map gives, and in no other stack.
  pub stacks :
      (id h : ℕ) → occurrences h (stack_of d id) ≡ to_nat (owns (d.m_corohandle_exec_map h) id)
  -- The coroutine at the bottom is the execution itself.
  pub base : (id : ℕ) → (stack_of d id ≡ []) ⊎ (front (stack_of d id) ≡ some id)

-- The other executions keep their bottom.
base-update :
    (d : Domain) (id : ℕ) (o : Option Execution)
    → Consistent d
    → (stack o ≡ []) ⊎ (front (stack o) ≡ some id)
    → (x : ℕ)
    → (stack (update d.m_executions id o x) ≡ [])
      ⊎ (front (stack (update d.m_executions id o x)) ≡ some x)
base-update d id o c mine x = elim (ℕ_discrete id x) [
  | yes same ↦
      subst
        (λ z.
          (stack (update d.m_executions id o z) ≡ [])
          ⊎ (front (stack (update d.m_executions id o z)) ≡ some z))
        same
        (subst (λ e. (stack e ≡ []) ⊎ (front (stack e) ≡ some id))
          (sym (update_self d.m_executions id o)) mine)
  | no other ↦
      subst (λ e. (stack e ≡ []) ⊎ (front (stack e) ≡ some x))
        (sym (update_ne d.m_executions id x o other)) (c.base x)
]

-- One execution's stack and one coroutine's entry change, and agree again.
pub update-Consistent :
    (d : Domain) (list : List ℕ) (id h : ℕ) (o : Option Execution) (v : Option ℕ)
    → Consistent d
    → (stack o ≡ []) ⊎ (front (stack o) ≡ some id)
    → ((y : ℕ) → h ≢ y → occurrences y (stack o) ≡ occurrences y (stack_of d id))
    → occurrences h (stack o) ≡ to_nat (owns v id)
    → ((x : ℕ) → id ≢ x → to_nat (owns v x) ≡ to_nat (owns (d.m_corohandle_exec_map h) x))
    → Consistent (record {
      m_execution_list = list;
      m_executions = update d.m_executions id o;
      m_corohandle_exec_map = update d.m_corohandle_exec_map h v;
    })
update-Consistent d list id h o v c bottom others mine elsewhere = record {
  stacks = λ x y. elim (ℕ_discrete id x) [
    | yes same ↦
        let now : update d.m_executions id o x ≡ o =
          subst (λ z. update d.m_executions id o z ≡ o) same (update_self d.m_executions id o) in
        ap (λ e. occurrences y (stack e)) now
        ∙ subst
            (λ z. occurrences y (stack o) ≡ to_nat (owns (update d.m_corohandle_exec_map h v y) z))
            same
            (elim (ℕ_discrete h y) [
              | yes this ↦
                  subst
                    (λ z.
                      occurrences z (stack o)
                      ≡ to_nat (owns (update d.m_corohandle_exec_map h v z) id))
                    this
                    (mine
                      ∙ ap (λ w. to_nat (owns w id))
                          (sym (update_self d.m_corohandle_exec_map h v)))
              | no other ↦
                  others y other
                  ∙ c.stacks id y
                  ∙ ap (λ w. to_nat (owns w id))
                      (sym (update_ne d.m_corohandle_exec_map h y v other))
            ])
    | no other ↦
        ap (λ e. occurrences y (stack e)) (update_ne d.m_executions id x o other)
        ∙ c.stacks x y
        ∙ (elim (ℕ_discrete h y) [
          | yes this ↦
              subst
                (λ z.
                  to_nat (owns (d.m_corohandle_exec_map z) x)
                  ≡ to_nat (owns (update d.m_corohandle_exec_map h v z) x))
                this
                (sym (elsewhere x other)
                  ∙ ap (λ w. to_nat (owns w x)) (sym (update_self d.m_corohandle_exec_map h v)))
          | no apart ↦
              ap (λ w. to_nat (owns w x)) (sym (update_ne d.m_corohandle_exec_map h y v apart))
        ])
  ];
  base = base-update d id o c bottom;
}
