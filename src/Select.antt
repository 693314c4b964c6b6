-- ===== src/Select.antt =====
-- asco/task/select.h: the branches of a select, of which the first that completes gives the result.
-- Each branch is a thread, and each step one access to the shared select. All outputs have one type here; an
-- exception is a value of another.
pub mod First
mod Examples
use asco.Prelude.{
  ℕ, zero, suc, ◌<◌, ◌≡◌, ◌≢◌, Bool, true, false, Option, none, some, Expected, update, ◌==◌,
  if◌then◌else◌,
}

-- What `co_await fut` ends with: an output, or an exception.
abbrev pub Ending : Type 0 → Type 0 → Type 0
Ending A E = Expected A E

-- `m_complete_branch` (`none`: the maximum of its type), whether `m_domain` is cancelled, and what the
-- futures of `m_futures` have returned or thrown.
pub record Memory (A E : Type 0) : Type 0 where
  pub m_complete_branch : Option ℕ
  pub cancelled : Bool
  pub m_futures : ℕ → Option (Ending A E)

-- Where a branch stands in `select_impl`.
pub data Pc (A E : Type 0) : Type 0 where
  awaiting : Pc A E
  exchange : (o : Ending A E) → Pc A E
  cancel : (o : Ending A E) → Pc A E
  returns : (o : Ending A E) → Pc A E
  returned : (o : Ending A E) → Pc A E
  yielding : Pc A E

-- `select_impl`
pub data Move {A E : Type 0} (i : ℕ) (m : Memory A E) : Pc A E → Memory A E → Pc A E → Type 0 where
  -- `co_await fut` returns or throws
  ends : (o : Ending A E) → Move i m Pc.awaiting m (Pc.exchange o)
  -- `m_complete_branch.compare_exchange_strong`
  first :
      {o : Ending A E}
      → m.m_complete_branch ≡ none
      → Move i m (Pc.exchange o) (record m { m_complete_branch = some i }) (Pc.cancel o)
  late : {o : Ending A E} → m.m_complete_branch ≢ none → Move i m (Pc.exchange o) m Pc.yielding
  -- `m_domain.cancel()`
  cancels : {o : Ending A E} → Move i m (Pc.cancel o) (record m { cancelled = true }) (Pc.returns o)
  -- `co_return`, or the exception again
  gives :
      {o : Ending A E}
      → Move i m
          (Pc.returns o)
          (record m { m_futures = update m.m_futures i (some o) })
          (Pc.returned o)
  -- `this_task::yield()`, for ever
  yields : Move i m Pc.yielding m Pc.yielding

-- The state that `select::select` makes.
abbrev pub selecting : {A E : Type 0} → Memory A E
selecting = record { m_complete_branch = none; cancelled = false; m_futures = λ _. none }

module _ {A E : Type 0} where
  -- The branches are tried in turn from `i` on, of which `k` are left; `gen` takes the one of index
  -- `branch`. `none`: none is it, or its future has no result.
  unfoldable pub gen : ℕ → ℕ → ℕ → Memory A E → Option (ℕ × Ending A E)
  gen zero i branch m = none
  gen (suc k) i branch m =
      let rest = gen k (suc i) branch m in
      if branch == i then elim (m.m_futures i) [ none ↦ none | some o ↦ some (i, o) ] else rest

  -- `await_resume` with `n` branches; `none` as well when its assertion fails.
  unfoldable pub await_resume : ℕ → Memory A E → Option (ℕ × Ending A E)
  await_resume n m = elim m.m_complete_branch [ none ↦ none | some branch ↦ gen n 0 branch m ]
