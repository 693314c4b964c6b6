-- ===== src/Spinlock/Examples.antt =====
-- Three threads, of which the second has locked.
use asco.Prelude.{refl, arith, Bool, true, false, update, update_self, subst, sym}
use asco.Interleaving.{System, pick, Reach, start, later}
use asco.Spinlock.{Pc, Move}
use asco.Spinlock.Exclusion.{unlocked}

abbrev entering : System Bool Pc
entering = record { mem = false; pc = update unlocked.pc 1 Pc.locking }

abbrev holding : System Bool Pc
holding = record { mem = true; pc = update entering.pc 1 Pc.holds }

holding-Reach : Reach Move 3 unlocked holding
holding-Reach = later (later start (pick 1 (omega arith) Move.lock)) (
    pick 1 (omega arith) (
      subst (λ x. Move 1 false x true Pc.holds) (sym (update_self unlocked.pc 1 Pc.locking))
        (Move.lock_wins refl)))
