-- ===== src/RwLock/LostWakeup.antt =====
-- A task can go to sleep for a lock that another has just set free.
use asco.Prelude.{ℕ, ◌+◌, ◌^◌, ◌<◌, ◌≡◌, refl, ◌≢◌, arith, subst, [], ◌∷◌}
use asco.Interleaving.{System, Reach, start}
use asco.Interleaving.Pair.{At, first_moves, second_moves}
use asco.RwLock.{Memory, Pc, Move}
use asco.RwLock.Exclusion.{unlocked}

abbrev pub word : ℕ → Memory
word m = record { m_state = m; m_read_cv = []; m_write_cv = [] }

module _ (n i j : ℕ) (hi : i < n) (hj : j < n) (apart : i ≢ j) where
  abbrev Here : Memory → Pc → Pc → Type 0
  Here = At Move n unlocked i j hi hj apart

  go : {m m' : Memory} {p p' q : Pc} → Here m p q → Move i m p m' p' → Here m' p' q
  go = first_moves Move n unlocked i j hi hj apart

  go' : {m m' : Memory} {p q q' : Pc} → Here m p q → Move j m q m' q' → Here m' p q'
  go' = second_moves Move n unlocked i j hi hj apart

  -- The second thread gives its read guard back to a lock with `k` announced and no sleepers.
  dropped :
      {k : ℕ} {p : Pc}
      → k + 1 < 2 ^ 64
      → Here (word (k + 1)) p Pc.holds_read
      → Here (word k) p Pc.idle
  dropped {k} {p} h a =
      let b : Here (word k) p Pc.read_dropped =
        subst (λ (x : ℕ). Here (word x) p Pc.read_dropped) (omega arith) (go' a Move.drop_read) in
      go' (go' b Move.read_notifies_read) Move.read_notifies_write

  reading : Here (word 1) Pc.idle Pc.holds_read
  reading =
      let a₀ : Here (word 0) Pc.idle Pc.idle = record {
        state = unlocked;
        reach = start;
        mem_is = refl;
        first = refl;
        second = refl;
      } in
      let a₁ : Here (word 0) Pc.idle Pc.try_read_load = go' a₀ Move.try_read in
      let a₂ : Here (word 0) Pc.idle (Pc.try_read_exchange 0) = go' a₁ (Move.try_read_loads refl) in
      go' a₂ (Move.try_read_wins refl)

  reader_sleeps : Here (record (word 0) { m_read_cv = i ∷ [] }) Pc.read_asleep Pc.idle
  reader_sleeps =
      let a₁ : Here (word 1) Pc.read_load Pc.holds_read = go reading Move.read in
      let a₂ : Here (word 1) (Pc.read_wait 1) Pc.holds_read = go a₁ Move.read_loads in
      go (dropped (omega arith) a₂) Move.read_sleeps

  writer_sleeps : Here (record (word (2 ^ 62)) { m_write_cv = i ∷ [] }) Pc.write_asleep Pc.idle
  writer_sleeps =
      let a₁ : Here (word 1) Pc.write_load Pc.holds_read = go reading Move.write in
      let a₂ : Here (word 1) (Pc.write_announce 1) Pc.holds_read = go a₁ Move.write_loads in
      let a₃ : Here (word (2 ^ 62 + 1)) Pc.write_fetch Pc.holds_read =
        go a₂ (Move.announce_wins refl) in
      let a₄ : Here (word (2 ^ 62 + 1)) (Pc.write_wait (2 ^ 62 + 1)) Pc.holds_read =
        go a₃ (Move.write_fetches (omega arith)) in
      go (dropped (omega arith) a₄) (Move.write_sleeps (omega arith))

  -- From a free lock two threads, of which one reads and the other calls `read`, can reach a state
  -- with the word 0 in which the other is asleep in the queue and the first is idle again; and if the
  -- other calls `write`, such a state in which the word is its announcement alone.
  pub rwlock_lost_wakeup :
      ((s : System Memory Pc) × Reach Move n unlocked s
        × (s.pc i ≡ Pc.read_asleep)
        × (s.pc j ≡ Pc.idle)
        × (s.mem ≡ record { m_state = 0; m_read_cv = i ∷ []; m_write_cv = [] }))
      × ((s : System Memory Pc) × Reach Move n unlocked s
          × (s.pc i ≡ Pc.write_asleep)
          × (s.pc j ≡ Pc.idle)
          × (s.mem ≡ record { m_state = 2 ^ 62; m_read_cv = []; m_write_cv = i ∷ [] }))
  rwlock_lost_wakeup =
      let a : Here (record (word 0) { m_read_cv = i ∷ [] }) Pc.read_asleep Pc.idle =
        reader_sleeps in
      let b : Here (record (word (2 ^ 62)) { m_write_cv = i ∷ [] }) Pc.write_asleep Pc.idle =
        writer_sleeps in
      (
        (a.state, a.reach, a.first, a.second, a.mem_is),
        (b.state, b.reach, b.first, b.second, b.mem_is),
      )
