-- ===== src/IdleWorkers/Examples.antt =====
-- Thread 0 is the only worker, and thread 1 spawns the coroutine 7.
use asco.Prelude.{ℕ, zero, suc, ◌≡◌, refl, arith, [], ◌∷◌}
use asco.Interleaving.{System, Reach}
use asco.IdleWorkers.{Memory, Pc, Move}
use asco.IdleWorkers.Missed.{beginning, spawn_missed}

abbrev places : ℕ → Pc
places zero = Pc.fetching
places (suc i) = Pc.outside

spawn_missed_example :
    (s : System Memory Pc) × Reach Move 2 (beginning places) s
    × (s.pc 0 ≡ Pc.sleeping)
    × (s.pc 1 ≡ Pc.outside)
    × (s.mem ≡ record { queue = 7 ∷ []; idle_workers = 0 ∷ []; m_sem = λ _. 0 })
spawn_missed_example =
    spawn_missed places 2 0 1 7 (omega arith) (omega arith) (λ e. omega arith) refl refl
