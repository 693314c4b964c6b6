-- ===== src/JoinHandle.antt =====
-- asco/join_handle.h: how a spawned task completes, and how its awaiter learns of it.
-- A thread is a task or a worker; each step is one access to the shared task_state. What the awaiter's token
-- does in its scheduler is its own affair: a suspended awaiter runs on when the token has been woken.
pub mod Completion
pub mod Once
pub mod Awaiter
pub mod EarlyRead
mod Examples
use asco.Prelude.{ℕ, ◌+◌, ◌-◌, ◌<◌, ◌≡◌, ◌≢◌, Bool, true, false, Option, none, some, update}

-- `complete_state`
pub data CompleteState : Type 0 where
  not_completed awaitable_waiting completed : CompleteState

abbrev pub is_completed : CompleteState → Bool
is_completed CompleteState.completed = true
is_completed _ = false

-- What a completion leaves for the awaiter: the value, or `e_ptr`. A task without a value, and one that
-- reaches its end with neither, leave `nothing`.
pub data Outcome (A : Type 0) : Type 0 where
  value : A → Outcome A
  exception : Outcome A
  coroutine_cancelled : Outcome A
  nothing : Outcome A

-- `task_state`; `outcome` is `none` until `value` or `e_ptr` is stored, and `is_moved` whether the value has been
-- moved out. `token_storage` is the thread whose token was constructed in the storage last, and
-- `caller_awake_token` whether the pointer to it is set. `awoken` counts the calls of `awake` on each thread's
-- token, `cancel_awoken` those on the task's own.
pub record Memory (A : Type 0) : Type 0 where
  pub cstate : CompleteState
  pub outcome : Option (Outcome A)
  pub sync_awaiter : ℕ
  pub is_moved : Bool
  pub token_storage : Option ℕ
  pub caller_awake_token : Bool
  pub awoken : ℕ → ℕ
  pub cancel_requested : Bool
  pub cancel_awake_token : Bool
  pub cancel_awoken : ℕ

-- Where a thread stands. `o` is what a completion is about to leave, and `e` the local of an exchange.
pub data Pc (A : Type 0) : Type 0 where
  idle : Pc A
  mark_load : (o : Outcome A) → Pc A
  mark_exchange : (o : Outcome A) (e : CompleteState) → Pc A
  store : (o : Outcome A) → Pc A
  release : (o : Outcome A) → Pc A
  awake : (o : Outcome A) → Pc A
  awake_cancelled : (o : Outcome A) → Pc A
  finished : (o : Outcome A) → Pc A
  refused : Pc A
  await_token : Pc A
  await_store : Pc A
  await_load : Pc A
  await_exchange : (e : CompleteState) → Pc A
  suspended : Pc A
  resume : Pc A
  resume_early : Pc A
  got : (o : Option (Outcome A)) → Pc A
  got_early : (o : Option (Outcome A)) → Pc A
  got_moved : Pc A

-- Whether `await_resume` moves a value out; an exception stays where it is.
abbrev pub moves_out : {A : Type 0} → Option (Outcome A) → Bool
moves_out (some (Outcome.value a)) = true
moves_out _ = false

pub data Move {A : Type 0} (i : ℕ) (m : Memory A) : Pc A → Memory A → Pc A → Type 0 where
  -- `try_mark_completed`, called by `return_value`, `return_void`, `unhandled_exception`,
  -- `final_suspend` and `cancel`; the exchange is a weak one
  completes : (o : Outcome A) → Move i m Pc.idle m (Pc.mark_load o)
  mark_refused :
      {o : Outcome A} → m.cstate ≡ CompleteState.completed → Move i m (Pc.mark_load o) m Pc.refused
  mark_loads :
      {o : Outcome A}
      → is_completed m.cstate ≡ false
      → Move i m (Pc.mark_load o) m (Pc.mark_exchange o m.cstate)
  mark_wins :
      {o : Outcome A} {e : CompleteState}
      → m.cstate ≡ e
      → Move i m (Pc.mark_exchange o e) (record m { cstate = CompleteState.completed }) (Pc.store o)
  mark_fails :
      {o : Outcome A} {e : CompleteState} → Move i m (Pc.mark_exchange o e) m (Pc.mark_load o)
  -- the value or `e_ptr`; `cancel` requests the cancellation as well
  stores :
      {o : Outcome A}
      → o ≢ Outcome.coroutine_cancelled
      → Move i m (Pc.store o) (record m { outcome = some o }) (Pc.release o)
  stores_cancelled :
      {o : Outcome A}
      → o ≡ Outcome.coroutine_cancelled
      → Move i m
          (Pc.store o)
          (record m { outcome = some o; cancel_requested = true })
          (Pc.release o)
  releases :
      {o : Outcome A}
      → Move i m (Pc.release o) (record m { sync_awaiter = m.sync_awaiter + 1 }) (Pc.awake o)
  awakes :
      {o : Outcome A} {t : ℕ}
      → m.caller_awake_token ≡ true
      → m.token_storage ≡ some t
      → Move i m
          (Pc.awake o)
          (record m { awoken = update m.awoken t (m.awoken t + 1) })
          (Pc.awake_cancelled o)
  awakes_no_one :
      {o : Outcome A}
      → m.caller_awake_token ≡ false
      → Move i m (Pc.awake o) m (Pc.awake_cancelled o)
  awakes_cancelled :
      {o : Outcome A}
      → o ≡ Outcome.coroutine_cancelled
      → m.cancel_awake_token ≡ true
      → Move i m
          (Pc.awake_cancelled o)
          (record m { cancel_awoken = m.cancel_awoken + 1 })
          (Pc.finished o)
  awakes_no_task :
      {o : Outcome A}
      → m.cancel_awake_token ≡ false
      → Move i m (Pc.awake_cancelled o) m (Pc.finished o)
  not_cancelled :
      {o : Outcome A}
      → o ≢ Outcome.coroutine_cancelled
      → Move i m (Pc.awake_cancelled o) m (Pc.finished o)
  -- the worker that fetches the task
  fetched : Move i m Pc.idle (record m { cancel_awake_token = true }) Pc.idle
  -- `await_ready`
  ready : m.cstate ≡ CompleteState.completed → Move i m Pc.idle m Pc.resume_early
  not_ready : is_completed m.cstate ≡ false → Move i m Pc.idle m Pc.await_token
  -- `await_suspend`; the exchange is a weak one
  constructs : Move i m Pc.await_token (record m { token_storage = some i }) Pc.await_store
  stores_token : Move i m Pc.await_store (record m { caller_awake_token = true }) Pc.await_load
  await_returns : m.cstate ≡ CompleteState.completed → Move i m Pc.await_load m Pc.resume_early
  await_loads :
      is_completed m.cstate ≡ false → Move i m Pc.await_load m (Pc.await_exchange m.cstate)
  await_wins :
      {e : CompleteState}
      → m.cstate ≡ e
      → Move i m
          (Pc.await_exchange e)
          (record m { cstate = CompleteState.awaitable_waiting })
          Pc.suspended
  await_fails : {e : CompleteState} → Move i m (Pc.await_exchange e) m Pc.await_load
  resumes : 0 < m.awoken i → Move i m Pc.suspended m Pc.resume
  -- `await`, outside of the runtime
  acquires :
      0 < m.sync_awaiter
      → Move i m Pc.idle (record m { sync_awaiter = m.sync_awaiter - 1 }) Pc.resume
  -- `await_resume`, and the end of `await`
  takes :
      m.is_moved ≡ false
      → Move i m Pc.resume (record m { is_moved = moves_out m.outcome }) (Pc.got m.outcome)
  takes_early :
      m.is_moved ≡ false
      → Move i m Pc.resume_early
          (record m { is_moved = moves_out m.outcome })
          (Pc.got_early m.outcome)
  takes_moved : m.is_moved ≡ true → Move i m Pc.resume m Pc.got_moved
  takes_moved_early : m.is_moved ≡ true → Move i m Pc.resume_early m Pc.got_moved

abbrev pub spawned : {A : Type 0} → Memory A
spawned = record {
  cstate = CompleteState.not_completed;
  outcome = none;
  sync_awaiter = 0;
  is_moved = false;
  token_storage = none;
  caller_awake_token = false;
  awoken = λ _. 0;
  cancel_requested = false;
  cancel_awake_token = false;
  cancel_awoken = 0;
}
