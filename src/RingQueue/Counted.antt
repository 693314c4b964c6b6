-- ===== src/RingQueue/Counted.antt =====
-- The queue of asco/concurrency/ring_queue.h for values of type void: a counter.
-- Each step is one access to the counter.
use asco.Prelude.{ℕ, ◌+◌, ◌-◌, ◌≤◌, ◌<◌, ◌≡◌, ◌≢◌, refl, arith, update, update-all}
use asco.Interleaving.{System, Reach, Reach-keeps}

-- `count`; `sent` and `received` are how many calls of `try_send` and `try_recv` have put or taken one.
pub record Memory : Type 0 where
  pub count : ℕ
  pub sent : ℕ
  pub received : ℕ

-- Where a thread stands: `current` is the value that it has loaded.
pub data Pc : Type 0 where
  idle sending receiving : Pc
  send_exchange : (current : ℕ) → Pc
  recv_exchange : (current : ℕ) → Pc

module _ (cap : ℕ) where
  pub data Move (i : ℕ) (m : Memory) : Pc → Memory → Pc → Type 0 where
    -- `try_send`; it returns true when the queue is full
    try_send : Move i m Pc.idle m Pc.sending
    send_full : m.count ≡ cap → Move i m Pc.sending m Pc.idle
    send_loads : m.count ≢ cap → Move i m Pc.sending m (Pc.send_exchange m.count)
    send_wins :
        {current : ℕ}
        → m.count ≡ current
        → Move i m
            (Pc.send_exchange current)
            (record m { count = current + 1; sent = m.sent + 1 })
            Pc.idle
    send_fails :
        {current : ℕ} → m.count ≢ current → Move i m (Pc.send_exchange current) m Pc.sending
    -- `try_recv`
    try_recv : Move i m Pc.idle m Pc.receiving
    recv_empty : m.count ≡ 0 → Move i m Pc.receiving m Pc.idle
    recv_loads : m.count ≢ 0 → Move i m Pc.receiving m (Pc.recv_exchange m.count)
    recv_wins :
        {current : ℕ}
        → m.count ≡ current
        → Move i m
            (Pc.recv_exchange current)
            (record m { count = current - 1; received = m.received + 1 })
            Pc.idle
    recv_fails :
        {current : ℕ} → m.count ≢ current → Move i m (Pc.recv_exchange current) m Pc.receiving

  -- What a thread knows of the value that it has loaded.
  abbrev Loaded : Pc → Type 0
  Loaded (Pc.send_exchange current) = current < cap
  Loaded (Pc.recv_exchange current) = 0 < current
  Loaded Pc.idle = Unit
  Loaded Pc.sending = Unit
  Loaded Pc.receiving = Unit

  record Inv (s : System Memory Pc) : Type 0 where
    pub bound : s.mem.count ≤ cap
    pub balance : s.mem.sent ≡ s.mem.received + s.mem.count
    pub loaded : (i : ℕ) → Loaded (s.pc i)

  Counts : Memory → Pc → Memory → Pc → Type 0
  Counts m p m' p' =
      m.count ≤ cap
      → m.sent ≡ m.received + m.count
      → Loaded p
      → (m'.count ≤ cap) × (m'.sent ≡ m'.received + m'.count) × Loaded p'

  Move-Counts : {i : ℕ} {m m' : Memory} {p p' : Pc} → Move i m p m' p' → Counts m p m' p'
  unfolding Counts
  Move-Counts Move.try_send = λ b e l. (b, e, tt)
  Move-Counts (Move.send_full full) = λ b e l. (b, e, tt)
  Move-Counts (Move.send_loads room) = λ b e l. (b, e, omega arith)
  Move-Counts (Move.send_wins same) = λ b e l. (omega arith, omega arith, tt)
  Move-Counts (Move.send_fails other) = λ b e l. (b, e, tt)
  Move-Counts Move.try_recv = λ b e l. (b, e, tt)
  Move-Counts (Move.recv_empty none) = λ b e l. (b, e, tt)
  Move-Counts (Move.recv_loads one) = λ b e l. (b, e, omega arith)
  Move-Counts (Move.recv_wins same) = λ b e l. (omega arith, omega arith, tt)
  Move-Counts (Move.recv_fails other) = λ b e l. (b, e, tt)

  Move-Inv :
      (s : System Memory Pc) (i : ℕ) (m : Memory) (p : Pc)
      → Move i s.mem (s.pc i) m p
      → Inv s
      → Inv (record { mem = m; pc = update s.pc i p })
  unfolding Counts
  Move-Inv s i m p mv inv =
      let kept = Move-Counts mv inv.bound inv.balance (inv.loaded i) in
      record {
        bound = kept.0;
        balance = kept.1;
        loaded = update-all Loaded s.pc i p inv.loaded kept.2;
      }

abbrev pub unused : System Memory Pc
unused = record { mem = record { count = 0; sent = 0; received = 0 }; pc = λ _. Pc.idle }

-- In every order of the accesses of `n` threads the counter stays between 0 and the capacity, and is
-- how many more calls have put one than have taken one.
pub counted_lem :
    (cap n : ℕ) {s : System Memory Pc}
    → Reach (Move cap) n unused s
    → (s.mem.count ≤ cap) × (s.mem.sent ≡ s.mem.received + s.mem.count)
counted_lem cap n reach =
    let inv : Inv cap _ =
      Reach-keeps (Move cap) n (Inv cap) (λ s i m p lt mv. Move-Inv cap s i m p mv) reach
        (record { bound = omega arith; balance = refl; loaded = λ i. tt }) in
    (inv.bound, inv.balance)
