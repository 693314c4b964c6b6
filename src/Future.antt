-- ===== src/Future.antt =====
-- asco/future.h: the future of a coroutine, which is moved between variables, and the promise in the coroutine's
-- frame, which points back to the future and stores the coroutine's result in it.
-- A variable is a number; `V` is the output type, not void, and `E` the type of std::exception_ptr that is not
-- null. What a moved value and a moved pointer to an exception leave behind are parameters.
pub mod Travel
mod Examples
use asco.Prelude.{ℕ, ◌+◌, Bool, true, false, not, ◌&&◌, Option, none, some, update, if◌then◌else◌}

-- What the coroutine ends with.
pub data Outcome {ℓ} (V E : Type ℓ) : Type ℓ where
  returned : V → Outcome V E
  threw : E → Outcome V E

-- `m_value` is `none` where no object has been constructed in the storage.
pub record Future {ℓ} (V E : Type ℓ) : Type ℓ where
  pub m_e_ptr : Option E
  pub m_value : Option V
  pub m_result_completed : Bool

-- The futures in the variables, the promise's `m_future_object`, whether the frame with the promise has been
-- destroyed, and how many writes have gone to the promise since then.
pub record Frame {ℓ} (V E : Type ℓ) : Type ℓ where
  pub futures : ℕ → Future V E
  pub m_future_object : ℕ
  pub is_destroyed : Bool
  pub stray_writes : ℕ

abbrev pub is_null {ℓ} : {E : Type ℓ} → Option E → Bool
is_null none = true
is_null (some e) = false

module _ {ℓ} {V E : Type ℓ} where
  abbrev pub unfinished : Future V E
  unfinished = record { m_e_ptr = none; m_value = none; m_result_completed = false }

  -- `get_return_object`, into variable 0.
  unfoldable pub get_return_object : Frame V E
  get_return_object = record {
    futures = λ _. unfinished;
    m_future_object = 0;
    is_destroyed = false;
    stray_writes = 0;
  }

  -- `return_value`, `unhandled_exception`
  abbrev pub store : Outcome V E → Future V E → Future V E
  store (Outcome.returned v) f = record f { m_value = some v; m_result_completed = true }
  store (Outcome.threw e) f = record f { m_e_ptr = some e; m_result_completed = true }

  -- The coroutine's end: its result, and the frame's destruction in `final_suspend`.
  unfoldable pub complete : Outcome V E → Frame V E → Frame V E
  complete o s = record s {
    futures = update s.futures s.m_future_object (store o (s.futures s.m_future_object));
    is_destroyed = true;
  }

  module _ (moved : V → V) (moved_ptr : E → Option E) where
    -- `future(future &&rhs)`: the new future.
    unfoldable pub move_to : Future V E → Future V E
    move_to rhs = record {
      m_e_ptr = rhs.m_e_ptr;
      m_value = if rhs.m_result_completed && is_null rhs.m_e_ptr then rhs.m_value else none;
      m_result_completed = rhs.m_result_completed;
    }

    -- What it leaves of `rhs`.
    unfoldable pub move_from : Future V E → Future V E
    move_from rhs = record rhs {
      m_e_ptr = elim rhs.m_e_ptr [ none ↦ none | some e ↦ moved_ptr e ];
      m_value =
          if rhs.m_result_completed && is_null rhs.m_e_ptr
          then elim rhs.m_value [ none ↦ none | some v ↦ some (moved v) ]
          else rhs.m_value;
    }

    -- A new future in variable `i`, moved from the one in variable `j`.
    unfoldable pub move : (i j : ℕ) → Frame V E → Frame V E
    unfolding move_to move_from
    move i j s =
        let rhs = s.futures j in
        let futures = update (update s.futures j (move_from rhs)) i (move_to rhs) in
        if s.is_destroyed
        then record s { futures = futures; stray_writes = s.stray_writes + 1 }
        else record s { futures = futures; m_future_object = i }

  -- `await_resume`; `none`: it reads storage in which there is no value.
  unfoldable pub await_resume : Future V E → Option (Outcome V E)
  await_resume f = elim f.m_e_ptr [
    | some e ↦ some (Outcome.threw e)
    | none ↦ elim f.m_value [ none ↦ none | some v ↦ some (Outcome.returned v) ]
  ]

  -- Whether `~future` destroys a value.
  unfoldable pub destroys_value : Future V E → Bool
  destroys_value f = f.m_result_completed && is_null f.m_e_ptr
