-- ===== src/SpinRwLock/Writers.antt =====
-- Two threads in `write` at once can both get the lock.
use asco.Prelude.{ℕ, ◌+◌, ◌<◌, ◌≡◌, refl, ◌≢◌, arith, ◌^◌}
use asco.Interleaving.{System, Reach, start}
use asco.Interleaving.Pair.{At, first_moves, second_moves}
use asco.SpinRwLock.{Pc, Move}
use asco.SpinRwLock.Exclusion.{unlocked}

module _ (n i j : ℕ) (hi : i < n) (hj : j < n) (apart : i ≢ j) where
  abbrev Here : ℕ → Pc → Pc → Type 0
  Here = At Move n unlocked i j hi hj apart

  -- Both threads have seen the word with nothing but the announcement in it.
  both_commit : Here (2 ^ 62) (Pc.write_commit (2 ^ 62)) (Pc.write_commit (2 ^ 62))
  both_commit =
      let a₀ : Here 0 Pc.idle Pc.idle = record {
        state = unlocked;
        reach = start;
        mem_is = refl;
        first = refl;
        second = refl;
      } in
      let a₁ : Here 0 Pc.write_load Pc.idle = go a₀ Move.write in
      let a₂ : Here 0 (Pc.write_announce 0) Pc.idle = go a₁ Move.write_loads in
      let a₃ : Here (2 ^ 62) (Pc.write_wait (2 ^ 62)) Pc.idle = go a₂ (Move.announce_wins refl) in
      let a₄ : Here (2 ^ 62) (Pc.write_wait (2 ^ 62)) Pc.write_load = go' a₃ Move.write in
      let a₅ : Here (2 ^ 62) (Pc.write_wait (2 ^ 62)) (Pc.write_announce (2 ^ 62)) =
        go' a₄ Move.write_loads in
      let a₆ : Here (2 ^ 62) (Pc.write_wait (2 ^ 62)) (Pc.write_wait (2 ^ 62)) =
        go' a₅ (Move.announce_wins refl) in
      let a₇ : Here (2 ^ 62) (Pc.write_commit (2 ^ 62)) (Pc.write_wait (2 ^ 62)) =
        go a₆ (Move.wait_matches refl) in
      go' a₇ (Move.wait_matches refl)
    where
      go : {m m' : ℕ} {p p' q : Pc} → Here m p q → Move i m p m' p' → Here m' p' q
      go = first_moves Move n unlocked i j hi hj apart

      go' : {m m' : ℕ} {p q q' : Pc} → Here m p q → Move j m q m' q' → Here m' p q'
      go' = second_moves Move n unlocked i j hi hj apart

  -- The second exchange fails, and leaves the word of the first writer in `e`; the next round then
  -- waits for just that word.
  both_hold : Here (2 ^ 62 + 2 ^ 63) Pc.holds_write Pc.holds_write
  both_hold =
      let a₁ : Here taken Pc.holds_write (Pc.write_commit (2 ^ 62)) =
        first_moves Move n unlocked i j hi hj apart both_commit (Move.commit_wins refl) in
      let a₂ : Here taken Pc.holds_write (Pc.write_wait taken) =
        second_moves Move n unlocked i j hi hj apart a₁ (Move.commit_fails (omega arith)) in
      let a₃ : Here taken Pc.holds_write (Pc.write_commit taken) =
        second_moves Move n unlocked i j hi hj apart a₂ (Move.wait_matches refl) in
      second_moves Move n unlocked i j hi hj apart a₃ (Move.commit_wins refl)
    where
      taken : ℕ
      taken = 2 ^ 62 + 2 ^ 63

  -- Two different threads of a system can both come to hold a write guard of one lock that began
  -- free.
  pub two_writers :
      (s : System ℕ Pc) × Reach Move n unlocked s
      × (s.pc i ≡ Pc.holds_write)
      × (s.pc j ≡ Pc.holds_write)
  two_writers = (both_hold.state, both_hold.reach, both_hold.first, both_hold.second)
