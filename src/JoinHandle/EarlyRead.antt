-- ===== src/JoinHandle/EarlyRead.antt =====
-- An awaiter can read the result between the mark and the value.
use asco.Prelude.{ℕ, ◌<◌, ◌≡◌, refl, ap, ◌≢◌, none}
use asco.Interleaving.{System, Reach, start}
use asco.Interleaving.Pair.{At, first_moves, second_moves}
use asco.JoinHandle.{CompleteState, Outcome, Memory, Pc, Move, spawned}
use asco.JoinHandle.Once.{spawning}

module _ {A : Type 0} (v : A) (n i j : ℕ) (hi : i < n) (hj : j < n) (apart : i ≢ j) where
  abbrev Here : Memory A → Pc A → Pc A → Type 0
  Here = At Move n (spawning n) i j hi hj apart

  go : {m m' : Memory A} {p p' q : Pc A} → Here m p q → Move i m p m' p' → Here m' p' q
  go = first_moves Move n (spawning n) i j hi hj apart

  go' : {m m' : Memory A} {p q q' : Pc A} → Here m p q → Move j m q m' q' → Here m' p q'
  go' = second_moves Move n (spawning n) i j hi hj apart

  abbrev marked : Memory A
  marked = record spawned { cstate = CompleteState.completed }

  too_early : Here marked (Pc.store (Outcome.value v)) (Pc.got_early none)
  too_early =
      let a₀ : Here spawned Pc.idle Pc.idle = record {
        state = spawning n;
        reach = start;
        mem_is = refl;
        first = refl;
        second = refl;
      } in
      let a₁ : Here spawned (Pc.mark_load (Outcome.value v)) Pc.idle =
        go a₀ (Move.completes (Outcome.value v)) in
      let a₂ : Here spawned (Pc.mark_exchange (Outcome.value v) CompleteState.not_completed)
          Pc.idle =
        go a₁ (Move.mark_loads refl) in
      let a₃ : Here marked (Pc.store (Outcome.value v)) Pc.idle = go a₂ (Move.mark_wins refl) in
      let a₄ : Here marked (Pc.store (Outcome.value v)) Pc.resume_early =
        go' a₃ (Move.ready refl) in
      go' a₄ (Move.takes_early refl)

  -- Of a task that returns a value, an awaiter on another thread can find it completed and read the
  -- result while nothing is stored yet.
  pub reads_unset :
      (s : System (Memory A) (Pc A)) × Reach Move n (spawning n) s
      × (s.mem.cstate ≡ CompleteState.completed)
      × (s.pc i ≡ Pc.store (Outcome.value v))
      × (s.pc j ≡ Pc.got_early none)
  reads_unset =
      let a : Here marked (Pc.store (Outcome.value v)) (Pc.got_early none) = too_early in
      (a.state, a.reach, ap (λ m. m.cstate) a.mem_is, a.first, a.second)
