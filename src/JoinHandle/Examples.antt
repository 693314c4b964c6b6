-- ===== src/JoinHandle/Examples.antt =====
-- A task that returns 5, awaited on another thread.
use asco.Prelude.{ℕ, ◌<◌, ◌≤◌, ◌≡◌, refl, ◌≢◌, arith, true, false, Option, some, update}
use asco.Interleaving.{start}
use asco.Interleaving.Pair.{At, first_moves, second_moves}
use asco.JoinHandle.{CompleteState, Outcome, Memory, Pc, Move, spawned}
use asco.JoinHandle.Completion.{is_winner}
use asco.JoinHandle.Once.{spawning, completes_once}
use asco.JoinHandle.Awaiter.{is_awaiting, Sole, Reach-Move, awaiter_woken}

abbrev five : Outcome ℕ
five = Outcome.value 5

abbrev apart : ◌≢◌ {A = ℕ} 0 1
apart e = omega arith

abbrev Here : Memory ℕ → Pc ℕ → Pc ℕ → Type 0
Here = At (Sole 1) 2 (spawning 2) 0 1 (omega arith) (omega arith) apart

go :
    {m m' : Memory ℕ} {p p' q : Pc ℕ}
    → Here m p q
    → Move 0 m p m' p'
    → is_awaiting p' ≡ false
    → Here m' p' q
go a mv quiet =
    first_moves (Sole 1) 2 (spawning 2) 0 1 (omega arith) (omega arith) apart a (mv, λ e. absurd cc)

go' : {m m' : Memory ℕ} {p q q' : Pc ℕ} → Here m p q → Move 1 m q m' q' → Here m' p q'
go' a mv =
    second_moves (Sole 1) 2 (spawning 2) 0 1 (omega arith) (omega arith) apart a (mv, λ e. refl)

abbrev tokened : Memory ℕ
tokened = record spawned { token_storage = some 1; caller_awake_token = true }

abbrev awaited : Memory ℕ
awaited = record tokened { cstate = CompleteState.awaitable_waiting }

abbrev over : Memory ℕ
over = record awaited {
  cstate = CompleteState.completed;
  outcome = some five;
  sync_awaiter = 1;
  awoken = update (λ _. 0) 1 1;
}

sleeping : Here awaited Pc.idle Pc.suspended
sleeping =
    let a₀ : Here spawned Pc.idle Pc.idle = record {
      state = spawning 2;
      reach = start;
      mem_is = refl;
      first = refl;
      second = refl;
    } in
    let a₁ : Here spawned Pc.idle Pc.await_token = go' a₀ (Move.not_ready refl) in
    let a₁' : Here (record spawned { token_storage = some 1 }) Pc.idle Pc.await_store =
      go' a₁ Move.constructs in
    let a₂ : Here tokened Pc.idle Pc.await_load = go' a₁' Move.stores_token in
    let a₃ : Here tokened Pc.idle (Pc.await_exchange CompleteState.not_completed) =
      go' a₂ (Move.await_loads refl) in
    go' a₃ (Move.await_wins refl)

finishing : Here over (Pc.finished five) Pc.suspended
finishing =
    let a₁ : Here awaited (Pc.mark_load five) Pc.suspended =
      go sleeping (Move.completes five) refl in
    let a₂ : Here awaited (Pc.mark_exchange five CompleteState.awaitable_waiting) Pc.suspended =
      go a₁ (Move.mark_loads refl) refl in
    let a₃ : Here (record awaited { cstate = CompleteState.completed }) (Pc.store five)
        Pc.suspended =
      go a₂ (Move.mark_wins refl) refl in
    let a₄ : Here (record awaited { cstate = CompleteState.completed; outcome = some five })
        (Pc.release five) Pc.suspended =
      go a₃ (Move.stores (λ e. cc)) refl in
    let a₅ : Here (record over { awoken = λ _. 0 }) (Pc.awake five) Pc.suspended =
      go a₄ Move.releases refl in
    let a₆ : Here over (Pc.awake_cancelled five) Pc.suspended =
      go a₅ (Move.awakes refl refl) refl in
    go a₆ (Move.not_cancelled (λ e. cc)) refl

completes_once_example :
    (is_winner (finishing.state.pc 0) ≡ true
      → is_winner (finishing.state.pc 1) ≡ true
      → ◌≡◌ {A = ℕ} 0 1)
    × (finishing.state.mem.sync_awaiter ≤ 1)
    × ((o : Outcome ℕ)
        → finishing.state.pc 0 ≡ Pc.finished o
        → finishing.state.mem.outcome ≡ some o)
completes_once_example =
    completes_once 2 (Reach-Move 2 1 finishing.reach) 0 1 (omega arith) (omega arith)

awaiter_woken_example :
    (finishing.state.pc 1 ≡ Pc.suspended → 0 < finishing.state.mem.awoken 1)
    × ((r : Option (Outcome ℕ)) → finishing.state.pc 1 ≡ Pc.got r → r ≡ some five)
    × (finishing.state.pc 1 ≢ Pc.got_moved)
awaiter_woken_example =
    awaiter_woken 2 1 finishing.reach 0 (omega arith) (omega arith) five finishing.first
