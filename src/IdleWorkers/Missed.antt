-- ===== src/IdleWorkers/Missed.antt =====
-- A coroutine can wait in the queue while every worker sleeps.
use asco.Prelude.{ℕ, ◌<◌, ◌≡◌, refl, ◌≢◌, [], ◌∷◌}
use asco.Interleaving.{System, Reach, start}
use asco.Interleaving.Pair.{At, first_moves, second_moves}
use asco.IdleWorkers.{Memory, Pc, Move}

abbrev pub nothing : Memory
nothing = record { queue = []; idle_workers = []; m_sem = λ _. 0 }

-- `pc` says which threads are workers.
abbrev pub beginning : (ℕ → Pc) → System Memory Pc
beginning pc = record { mem = nothing; pc = pc }

module _ (pc : ℕ → Pc) (n i j h : ℕ) (hi : i < n) (hj : j < n) (apart : i ≢ j)
    (worker : pc i ≡ Pc.fetching) (spawner : pc j ≡ Pc.outside) where
  abbrev Here : Memory → Pc → Pc → Type 0
  Here = At Move n (beginning pc) i j hi hj apart

  go : {m m' : Memory} {p p' q : Pc} → Here m p q → Move i m p m' p' → Here m' p' q
  go = first_moves Move n (beginning pc) i j hi hj apart

  go' : {m m' : Memory} {p q q' : Pc} → Here m p q → Move j m q m' q' → Here m' p q'
  go' = second_moves Move n (beginning pc) i j hi hj apart

  abbrev pub queued : Memory
  queued = record nothing { queue = h ∷ [] }

  missed : Here (record queued { idle_workers = i ∷ [] }) Pc.sleeping Pc.outside
  missed =
      let a₀ : Here nothing Pc.fetching Pc.outside = record {
        state = beginning pc;
        reach = start;
        mem_is = refl;
        first = worker;
        second = spawner;
      } in
      let a₁ : Here nothing Pc.reporting Pc.outside = go a₀ (Move.finds_none refl) in
      let a₂ : Here queued Pc.reporting Pc.awaking = go' a₁ (Move.spawns h) in
      let a₃ : Here queued Pc.reporting Pc.outside = go' a₂ (Move.finds_no_idle refl) in
      go a₃ Move.reports

  -- From empty queues, with a worker that looks for a coroutine and a thread that spawns one: it can
  -- happen that the coroutine is in the queue, the worker sleeps without a wakeup to come, and the
  -- spawning thread is back outside; the worker is among the idle ones too late.
  pub spawn_missed :
      (s : System Memory Pc) × Reach Move n (beginning pc) s
      × (s.pc i ≡ Pc.sleeping)
      × (s.pc j ≡ Pc.outside)
      × (s.mem ≡ record { queue = h ∷ []; idle_workers = i ∷ []; m_sem = λ _. 0 })
  spawn_missed = (missed.state, missed.reach, missed.first, missed.second, missed.mem_is)
