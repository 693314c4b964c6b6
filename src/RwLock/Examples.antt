-- ===== src/RwLock/Examples.antt =====
-- The lock between three threads, of which one reads.
use asco.Prelude.{ℕ, ◌^◌, ◌≡◌, refl, arith, false, update, update_self, subst, sym}
use asco.Interleaving.{System, Reach, start, later, pick}
use asco.RwLock.{Memory, Pc, Move}
use asco.RwLock.Exclusion.{unlocked, is_reader, is_upgrading, rwlock_excludes}
use asco.RwLock.LostWakeup.{word}

abbrev at : ℕ → Pc → System Memory Pc → System Memory Pc
at m q s = record { mem = word m; pc = update s.pc 1 q }

abbrev asking : System Memory Pc
asking = at 0 Pc.try_write_exchange (at 0 Pc.try_write_load unlocked)

holding-Reach : Reach Move 3 unlocked (at (2 ^ 63) Pc.holds_write asking)
holding-Reach =
    later
      (later (later start (pick 1 (omega arith) Move.try_write)) (
        pick 1 (omega arith) (
          subst (λ p. Move 1 (word 0) p (word 0) Pc.try_write_exchange)
            (sym (update_self unlocked.pc 1 Pc.try_write_load)) (Move.try_write_loads refl))))
      (pick 1 (omega arith) (
        subst (λ p. Move 1 (word 0) p (word (2 ^ 63)) Pc.holds_write)
          (sym (update_self (at 0 Pc.try_write_load unlocked).pc 1 Pc.try_write_exchange))
          (Move.try_write_wins refl)))

abbrev holding : System Memory Pc
holding = at (2 ^ 63) Pc.holds_write asking

rwlock_excludes_example :
    (is_reader (holding.pc 2) ≡ false)
    × (is_upgrading (holding.pc 2) ≡ false)
    × (holding.pc 2 ≡ Pc.holds_write → ◌≡◌ {A = ℕ} 1 2)
rwlock_excludes_example =
    rwlock_excludes 3 (omega arith) holding-Reach 1 2 (omega arith) (omega arith)
      (update_self asking.pc 1 Pc.holds_write)
