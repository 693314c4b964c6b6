-- ===== src/ExecutionDomain.antt =====
-- asco/core/task/execution_domain.h and .cpp, with push_handle and pop_handle of asco/core/task/executor.cpp:
-- the executions of a domain, each with the stack of its coroutines.
-- An execution, a coroutine, a cancel source and a callback are numbers. The hash maps are the maps that
-- HashMap shows its tables to be; a stack is a list with its top first. `none` is a failed assertion or a panic.
pub mod Stacks
pub mod Operations
pub mod Calls
mod Examples
use asco.Prelude.{
  ℕ, zero, suc, ◌≤◌, Bool, true, false, Option, none, some, List, [], ◌∷◌, ◌++◌, update, length,
  ltb, ◌==◌, if◌then◌else◌,
}
use asco.CycleScheduler.{State}

-- `execution`; the stack of the cancel sources has its innermost last.
pub record Execution : Type 0 where
  pub handle_stack : List ℕ
  pub cancel_src_stack : List ℕ
  pub cancel_callback_stack : List ℕ
  pub state : State

pub record Domain : Type 0 where
  pub m_execution_list : List ℕ
  pub m_executions : ℕ → Option Execution
  pub m_corohandle_exec_map : ℕ → Option ℕ

-- `insert` of a map, which keeps an entry that is there.
abbrev pub insert : {A : Type 0} → (ℕ → Option A) → ℕ → A → ℕ → Option A
insert map key a = elim (map key) [ none ↦ update map key (some a) | some _ ↦ map ]

abbrev pub erase : ℕ → List ℕ → List ℕ
erase id [] = []
erase id (x ∷ xs) = let rest = erase id xs in if x == id then rest else x ∷ rest

-- `front()` of a stack
abbrev pub front : List ℕ → Option ℕ
front [] = none
front (x ∷ []) = some x
front (x ∷ y ∷ xs) = front (y ∷ xs)

module _ (nest_max_depth : ℕ) where
  unfoldable pub attach_execution : Domain → ℕ → List ℕ → ℕ → Option Domain
  attach_execution d id parent_srcstack cancel_src =
      if ltb (length parent_srcstack) nest_max_depth
      then some (record {
        m_execution_list = id ∷ erase id d.m_execution_list;
        m_executions = insert d.m_executions id (record {
          handle_stack = id ∷ [];
          cancel_src_stack = parent_srcstack ++ cancel_src ∷ [];
          cancel_callback_stack = [];
          state = State.active;
        });
        m_corohandle_exec_map = insert d.m_corohandle_exec_map id id;
      })
      else none

unfoldable pub detach_execution : Domain → ℕ → Domain
detach_execution d id = record {
  m_execution_list = erase id d.m_execution_list;
  m_executions = update d.m_executions id none;
  m_corohandle_exec_map = update d.m_corohandle_exec_map id none;
}

-- An execution that is there is replaced.
abbrev pub put : Domain → ℕ → Execution → Domain
put d id e = record d { m_executions = update d.m_executions id (some e) }

unfoldable pub set_state : Domain → ℕ → State → Option Domain
set_state d id state = elim (d.m_executions id) [
  | none ↦ none
  | some e ↦ some (put d id (record e { state = state }))
]

abbrev pub schedule_execution : Domain → ℕ → Option Domain
schedule_execution d id = set_state d id State.running

abbrev pub suspend_execution : Domain → ℕ → Option Domain
suspend_execution d id = set_state d id State.suspended

abbrev pub activate_execution : Domain → ℕ → Option Domain
activate_execution d id = set_state d id State.active

-- The loop of `activate_all` over the executions that are left.
unfoldable pub activate_from : List ℕ → Domain → Option Domain
activate_from [] d = some d
activate_from (id ∷ ids) d = elim (activate_execution d id) [
  | none ↦ none
  | some d' ↦ activate_from ids d'
]

abbrev pub activate_all : Domain → Option Domain
activate_all d = activate_from d.m_execution_list d

abbrev pub stack : Option Execution → List ℕ
stack none = []
stack (some e) = e.handle_stack

abbrev pub stack_of : Domain → ℕ → List ℕ
stack_of d id = stack (d.m_executions id)

-- The inner `none` is the null handle.
unfoldable pub top_of_execution : Domain → ℕ → Option (Option ℕ)
top_of_execution d id = elim (d.m_executions id) [
  | none ↦ none
  | some e ↦ elim e.handle_stack [ [] ↦ some none | h ∷ _ ↦ some (some h) ]
]

abbrev pub execution_of_coroutine : Domain → ℕ → Option ℕ
execution_of_coroutine d h = d.m_corohandle_exec_map h

-- `executor::push_handle`, while `id` is executed
unfoldable pub push_handle : Domain → ℕ → ℕ → Option Domain
push_handle d id h = elim (d.m_executions id) [
  | none ↦ none
  | some e ↦ elim (front (h ∷ e.handle_stack)) [
    | none ↦ none
    | some base ↦ some (record {
      m_execution_list = d.m_execution_list;
      m_executions =
          update d.m_executions id (some (record e { handle_stack = h ∷ e.handle_stack }));
      m_corohandle_exec_map = insert d.m_corohandle_exec_map h base;
    })
  ]
]

-- `executor::pop_handle`, while `id` is executed: the handle, or none for the null handle.
unfoldable pub pop_handle : Domain → ℕ → Option (Option ℕ × Domain)
pop_handle d id = elim (d.m_executions id) [
  | none ↦ none
  | some e ↦ elim e.handle_stack [
    | [] ↦ some (none, d)
    | h ∷ rest ↦ some (
      some h,
      record {
        m_execution_list = d.m_execution_list;
        m_executions = update d.m_executions id (some (record e { handle_stack = rest }));
        m_corohandle_exec_map = update d.m_corohandle_exec_map h none;
      },
    )
  ]
]
