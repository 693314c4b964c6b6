-- ===== src/RwLock/Typed.antt =====
-- The typed lock around the lock of the word: guards that hold a pointer and an inner guard.
use asco.Prelude.{
  ℕ, ◌+◌, ◌^◌, ◌<◌, ◌≡◌, refl, ◌≢◌, arith, ap, Bool, true, false, Option, none, some,
}
use asco.Interleaving.{System, Reach, start}
use asco.Interleaving.Pair.{At, first_moves, second_moves}
use asco.RwLock.{Memory, Pc, Move}
use asco.RwLock.Exclusion.{unlocked}
use asco.RwLock.LostWakeup.{word}

-- `m_rwlock`, the address of the typed lock or `none` for null, and whether `m_guard` holds the inner
-- lock.
pub record Guard : Type 0 where
  pub m_rwlock : Option ℕ
  pub m_guard : Bool

-- `write_guard()` and `read_guard()`
abbrev pub empty : Guard
empty = record { m_rwlock = none; m_guard = false }

-- `operator bool`
abbrev pub operator_bool : Guard → Bool
operator_bool g = elim g.m_rwlock [ none ↦ false | some _ ↦ true ]

-- `try_read` and `try_write` of the lock at `this`, with the guard that the inner lock returned.
unfoldable pub try_guard : ℕ → Bool → Guard
try_guard this inner = elim inner [
  | true ↦ record { m_rwlock = some this; m_guard = true }
  | false ↦ empty
]

-- `read_guard::upgrade`, with the guard that the inner `upgrade` returned.
unfoldable pub upgrade : Guard → Bool → Guard
upgrade g inner = elim g.m_rwlock [
  | none ↦ empty
  | some rwlock ↦ record { m_rwlock = some rwlock; m_guard = inner }
]

-- What a thread of the inner lock has in its write guard.
abbrev pub inner_guard : Pc → Bool
inner_guard Pc.holds_write = true
inner_guard _ = false

module _ (n i j : ℕ) (hi : i < n) (hj : j < n) (apart : i ≢ j) where
  abbrev Here : Memory → Pc → Pc → Type 0
  Here = At Move n unlocked i j hi hj apart

  go : {m m' : Memory} {p p' q : Pc} → Here m p q → Move i m p m' p' → Here m' p' q
  go = first_moves Move n unlocked i j hi hj apart

  go' : {m m' : Memory} {p q q' : Pc} → Here m p q → Move j m q m' q' → Here m' p q'
  go' = second_moves Move n unlocked i j hi hj apart

  both_read : Here (word 2) Pc.holds_read Pc.holds_read
  both_read =
      let a₀ : Here (word 0) Pc.idle Pc.idle = record {
        state = unlocked;
        reach = start;
        mem_is = refl;
        first = refl;
        second = refl;
      } in
      let a₁ : Here (word 0) Pc.try_read_load Pc.idle = go a₀ Move.try_read in
      let a₂ : Here (word 0) (Pc.try_read_exchange 0) Pc.idle = go a₁ (Move.try_read_loads refl) in
      let a₃ : Here (word 1) Pc.holds_read Pc.idle = go a₂ (Move.try_read_wins refl) in
      let a₄ : Here (word 1) Pc.holds_read Pc.try_read_load = go' a₃ Move.try_read in
      let a₅ : Here (word 1) Pc.holds_read (Pc.try_read_exchange 1) =
        go' a₄ (Move.try_read_loads refl) in
      go' a₅ (Move.try_read_wins refl)

  abbrev upgrading : ℕ → Memory
  upgrading r = word (2 ^ 62 + 2 ^ 61 + r)

  second_refused : Here (upgrading 1) Pc.upgrade_wait Pc.holds_nothing
  second_refused =
      let a₁ : Here (word 2) Pc.upgrade_load Pc.holds_read = go both_read Move.upgrade in
      let a₂ : Here (word 2) (Pc.upgrade_announce 2) Pc.holds_read =
        go a₁ (Move.upgrade_loads refl) in
      let a₃ : Here (upgrading 2) Pc.upgrade_wait Pc.holds_read =
        go a₂ (Move.upgrade_announces refl) in
      let a₄ : Here (upgrading 2) Pc.upgrade_wait Pc.upgrade_load = go' a₃ Move.upgrade in
      let a₅ : Here (upgrading 2) Pc.upgrade_wait Pc.upgrade_refused =
        go' a₄ (Move.upgrade_refuses (omega arith)) in
      let a₆ : Here (upgrading 1) Pc.upgrade_wait Pc.refused_dropped = go' a₅ Move.drop_refused in
      go' (go' a₆ Move.refused_notifies_read) Move.refused_notifies_write

  both_upgraded : Here (word (2 ^ 63 + 2 ^ 62)) Pc.holds_write Pc.holds_nothing
  both_upgraded = go second_refused (Move.upgrade_wins refl)

  -- From a free lock two threads with a read guard each can both upgrade it and reach a state in
  -- which the first holds the inner lock for writing, the second holds nothing of it, and the typed
  -- guards that `upgrade` then returns for a lock at `this` both test true.
  pub upgrade_shares :
      (this : ℕ)
      → (s : System Memory Pc) × Reach Move n unlocked s
        × (inner_guard (s.pc i) ≡ true)
        × (inner_guard (s.pc j) ≡ false)
        × (operator_bool (upgrade (try_guard this true) (inner_guard (s.pc i))) ≡ true)
        × (operator_bool (upgrade (try_guard this true) (inner_guard (s.pc j))) ≡ true)
  unfolding upgrade try_guard
  upgrade_shares this =
      let a : Here (word (2 ^ 63 + 2 ^ 62)) Pc.holds_write Pc.holds_nothing = both_upgraded in
      (a.state, a.reach, ap inner_guard a.first, ap inner_guard a.second, refl, refl)
