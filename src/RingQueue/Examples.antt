-- ===== src/RingQueue/Examples.antt =====
-- A ring of two values.
use asco.Prelude.{
  ℕ, ◌+◌, ◌%◌, ◌≤◌, ◌≡◌, refl, arith, false, update, update_self, update_ne, subst, inl,
}
use asco.Prelude.Cycle.{apart}
use asco.RingQueue.Defs.{Slot, Storage, create, try_recv}
use asco.RingQueue.Order.{Inv, IsUsed, contents}
use asco.Interleaving.{start}
use asco.Interleaving.Pair.{At, first_moves}
use asco.RingQueue.Counted.{Memory, Pc, Move, unused, counted_lem}
use asco.RingQueue.Recv.{Received, try_recv-Received}

abbrev fresh : Storage ℕ
fresh = create ℕ 2

abbrev no_slots : ℕ → Slot ℕ
no_slots i = Slot.empty

-- One value, in the last slot of the ring.
abbrev one_value : Storage ℕ
one_value = record { size = 3; head = 2; tail = 0; slot = update no_slots 2 (Slot.filled 5) }

one_value-Inv : Inv one_value
one_value-Inv = record {
  used = 1;
  room = omega arith;
  head_fits = omega arith;
  tail_is = refl;
  in_use = λ j h.
      let first : 0 ≡ j = omega arith in
      subst (λ (k : ℕ). IsUsed (one_value.slot ((2 + k) % 3))) first
        (inl (5, update_self no_slots 2 (Slot.filled 5)));
  free = λ j h fits.
      update_ne no_slots 2 ((2 + j) % 3) (Slot.filled 5)
        (λ e. absurd (omega (arith, apart 3 2 0 j (omega arith) (omega arith) fits e)));
}

try_recv-Received_example :
    Received 3 false (contents one_value one_value-Inv) (try_recv 2 one_value false)
unfolding one_value-Inv
try_recv-Received_example = try_recv-Received one_value one_value-Inv false 2 (omega arith)

-- A counter for three, of which one thread sends.
abbrev Here : Memory → Pc → Pc → Type 0
Here = At (Move 3) 2 unused 0 1 (omega arith) (omega arith) (λ e. omega arith)

one_sent : Here (record { count = 1; sent = 1; received = 0 }) Pc.idle Pc.idle
one_sent =
    let a₀ : Here unused.mem Pc.idle Pc.idle = record {
      state = unused;
      reach = start;
      mem_is = refl;
      first = refl;
      second = refl;
    } in
    let a₁ : Here unused.mem Pc.sending Pc.idle = go a₀ Move.try_send in
    let a₂ : Here unused.mem (Pc.send_exchange 0) Pc.idle =
      go a₁ (Move.send_loads (λ e. omega arith)) in
    go a₂ (Move.send_wins refl)
  where
    go : {m m' : Memory} {p p' q : Pc} → Here m p q → Move 3 0 m p m' p' → Here m' p' q
    go = first_moves (Move 3) 2 unused 0 1 (omega arith) (omega arith) (λ e. omega arith)

counted_lem_example :
    (one_sent.state.mem.count ≤ 3)
    × (one_sent.state.mem.sent ≡ one_sent.state.mem.received + one_sent.state.mem.count)
counted_lem_example = counted_lem 3 2 one_sent.reach
