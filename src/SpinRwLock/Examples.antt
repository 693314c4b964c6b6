-- ===== src/SpinRwLock/Examples.antt =====
-- The lock between three threads, of which the first may call `write`.
use asco.Prelude.{ℕ, ◌≡◌, refl, ◌≢◌, arith, some, subst, sym, update, update_self}
use asco.Interleaving.{System, Step, pick, Reach, start, later}
use asco.SpinRwLock.{Pc, Move, write_mask}
use asco.SpinRwLock.Exclusion.{unlocked, Guarded, allowed, write_excludes}
use asco.SpinRwLock.Writers.{two_writers}
use asco.SpinRwLock.Alone.{try_read}

-- Thread 1 has a write guard that it got by `try_write`.
Step-one :
    (s : System ℕ Pc) {p : Pc} (q : Pc) {m : ℕ}
    → s.pc 1 ≡ p
    → Move 1 s.mem p m q
    → (q ≡ Pc.write_load → ◌≡◌ {A = ℕ} 1 0)
    → Step (Guarded 0) 3 s (record { mem = m; pc = update s.pc 1 q })
Step-one s q {m = m} e mv own =
    pick 1 (omega arith) (allowed (subst (λ x. Move 1 s.mem x m q) (sym e) mv) own)

abbrev at : ℕ → Pc → System ℕ Pc → System ℕ Pc
at m q s = record { mem = m; pc = update s.pc 1 q }

abbrev holding : System ℕ Pc
holding =
    at write_mask Pc.holds_write (at 0 Pc.try_write_exchange (at 0 Pc.try_write_load unlocked))

holding-Reach : Reach (Guarded 0) 3 unlocked holding
holding-Reach =
    later
      (later
        (later start (Step-one unlocked Pc.try_write_load refl Move.try_write (λ e. absurd cc)))
        (Step-one (at 0 Pc.try_write_load unlocked) Pc.try_write_exchange
          (update_self unlocked.pc 1 Pc.try_write_load) (Move.try_write_loads refl)
          (λ e. absurd cc)))
      (Step-one (at 0 Pc.try_write_exchange (at 0 Pc.try_write_load unlocked)) Pc.holds_write
        (update_self (at 0 Pc.try_write_load unlocked).pc 1 Pc.try_write_exchange)
        (Move.try_write_wins refl) (λ e. absurd cc))

write_excludes_example :
    (holding.pc 2 ≢ Pc.holds_read) × (holding.pc 2 ≡ Pc.holds_write → ◌≡◌ {A = ℕ} 1 2)
write_excludes_example =
    write_excludes 3 0 (omega arith) holding-Reach 1 2 (omega arith) (omega arith) (
      update_self (at 0 Pc.try_write_exchange (at 0 Pc.try_write_load unlocked)).pc 1
        Pc.holds_write)

two_writers_example :
    (s : System ℕ Pc) × Reach Move 2 unlocked s
    × (s.pc 0 ≡ Pc.holds_write)
    × (s.pc 1 ≡ Pc.holds_write)
two_writers_example = two_writers 2 0 1 (omega arith) (omega arith) (λ e. omega arith)

try_read_two : try_read 2 ≡ some 3
unfolding try_read
try_read_two = refl
