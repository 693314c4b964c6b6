-- ===== src/Semaphore/Examples.antt =====
-- A mutex between three threads, and a semaphore between two.
use asco.Prelude.{ℕ, ◌≡◌, refl, arith, subst, sym, update, update_self, []}
use asco.Interleaving.{System, Step, pick, Reach, start, later}
use asco.Semaphore.{Memory, Pc, Move}
use asco.Semaphore.Mutex.{unlocked, Locking, locking, mutex_excludes}

abbrev free : Memory
free = record { m_count = 1; waiters = [] }

abbrev taken : Memory
taken = record { m_count = 0; waiters = [] }

abbrev at : Memory → Pc → System Memory Pc → System Memory Pc
at m q s = record { mem = m; pc = update s.pc 1 q }

abbrev after_load : System Memory Pc
after_load = at free (Pc.try_exchange 1) (at free Pc.try_fetch unlocked)

abbrev holding : System Memory Pc
holding = at taken Pc.holds after_load

by_one :
    (s : System Memory Pc) {p q : Pc} {m : Memory}
    → s.pc 1 ≡ p
    → Locking 1 s.mem p m q
    → Step Locking 3 s (at m q s)
by_one s {q = q} {m = m} e mv = pick 1 (omega arith) (subst (λ x. Locking 1 s.mem x m q) (sym e) mv)

holding-Reach : Reach Locking 3 unlocked holding
holding-Reach =
    later
      (later
        (later start
          (by_one unlocked refl (locking Move.try_acquire (λ n e h. absurd cc) (λ h. absurd cc))))
        (by_one (at free Pc.try_fetch unlocked) (update_self unlocked.pc 1 Pc.try_fetch)
          (locking (Move.try_loads (λ e. omega arith)) (λ n e h. absurd cc) (λ h. absurd cc))))
      (by_one after_load (update_self (at free Pc.try_fetch unlocked).pc 1 (Pc.try_exchange 1))
        (locking (Move.try_wins refl) (λ n e h. absurd cc) (λ h. absurd cc)))

mutex_excludes_example : (holding.mem.m_count ≡ 0) × (holding.pc 2 ≡ Pc.holds → ◌≡◌ {A = ℕ} 1 2)
mutex_excludes_example =
    mutex_excludes 3 holding-Reach 1 2 (omega arith) (omega arith)
      (update_self after_load.pc 1 Pc.holds)
