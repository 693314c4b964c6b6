-- ===== src/Semaphore/LostWakeup.antt =====
-- A thread can go to sleep for a count that another has just raised.
use asco.Prelude.{ℕ, zero, suc, ◌≤◌, ◌<◌, ◌≡◌, refl, ◌≢◌, arith, subst, [], ◌∷◌}
use asco.Interleaving.{System, Reach, start}
use asco.Interleaving.Pair.{At, first_moves, second_moves}
use asco.Semaphore.{Memory, Pc, Move}

abbrev pub drained : System Memory Pc
drained = record { mem = record { m_count = 0; waiters = [] }; pc = λ i. Pc.idle }

module _ (limit n i j : ℕ) (hi : i < n) (hj : j < n) (apart : i ≢ j) where
  abbrev Here : Memory → Pc → Pc → Type 0
  Here = At (Move (suc limit)) n drained i j hi hj apart

  abbrev none_waiting : ℕ → Memory
  none_waiting c = record { m_count = c; waiters = [] }

  abbrev one_waiting : ℕ → Memory
  one_waiting c = record { m_count = c; waiters = i ∷ [] }

  -- The rounds in which `acquire` spins and yields.
  tired : (r : ℕ) → r ≤ 101 → Here (none_waiting 0) (Pc.fetch r) Pc.idle
  tired zero h =
      first_moves (Move (suc limit)) n drained i j hi hj apart
        (record { state = drained; reach = start; mem_is = refl; first = refl; second = refl })
        Move.acquire
  tired (suc r) h =
      subst (λ (k : ℕ). Here (none_waiting 0) (Pc.fetch k) Pc.idle) (omega arith)
        (first_moves (Move (suc limit)) n drained i j hi hj apart (tired r (omega arith))
          (Move.spins refl (omega arith)))

  lost : Here (one_waiting 1) Pc.asleep Pc.idle
  lost =
      let a₁ : Here (none_waiting 0) Pc.wait Pc.idle =
        first_moves (Move (suc limit)) n drained i j hi hj apart (tired 101 (omega arith))
          (Move.tires refl (omega arith)) in
      let a₂ : Here (none_waiting 0) Pc.wait (Pc.release_load 1) = go a₁ (Move.post 1) in
      let a₃ : Here (none_waiting 0) Pc.wait (Pc.release_notify 1 0) = go a₂ Move.release_loads in
      let a₄ : Here (none_waiting 0) Pc.wait (Pc.release_exchange 1 0) =
        go a₃ (Move.no_waiters refl) in
      let a₅ : Here (one_waiting 0) Pc.asleep (Pc.release_exchange 1 0) =
        first_moves (Move (suc limit)) n drained i j hi hj apart a₄ (Move.sleeps refl) in
      subst (λ (c : ℕ). Here (one_waiting c) Pc.asleep Pc.idle) (omega arith)
        (go a₅ (Move.release_wins refl))
    where
      go : {m m' : Memory} {p q q' : Pc} → Here m p q → Move (suc limit) j m q m' q' → Here m' p q'
      go = second_moves (Move (suc limit)) n drained i j hi hj apart

  -- From a count of 0 an `acquire` and a `release` of two threads can end with the first asleep in the
  -- queue, a count of 1, and the second idle again.
  pub lost_wakeup :
      (s : System Memory Pc) × Reach (Move (suc limit)) n drained s
      × (s.pc i ≡ Pc.asleep)
      × (s.pc j ≡ Pc.idle)
      × (s.mem ≡ record { m_count = 1; waiters = i ∷ [] })
  lost_wakeup = (lost.state, lost.reach, lost.first, lost.second, lost.mem_is)
