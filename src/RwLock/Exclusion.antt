-- ===== src/RwLock/Exclusion.antt =====
-- The lock excludes, with `upgrade` among its calls.
use asco.Prelude.{
  ℕ, ◌+◌, ◌*◌, ◌^◌, ◌≤◌, ◌<◌, ◌≡◌, refl, arith, to_nat, Bool, true, false, update, count,
  count-update, count-le, count-zero, count-pos, count-two, ap, update-all, ℕ_discrete, [],
  Bool-cases, inl, inr,
}
use asco.Interleaving.{System, Reach, Reach-keeps}
use asco.RwLock.{Memory, Pc, Move, willing, with_willing, with_updating, with_write}

-- From a read guard that is held to the step of its destructor that lowers the word, or to the
-- announcement of an upgrade.
abbrev pub is_reader : Pc → Bool
is_reader Pc.holds_read = true
is_reader Pc.upgrade_load = true
is_reader (Pc.upgrade_announce e) = true
is_reader Pc.upgrade_refused = true
is_reader _ = false

abbrev pub is_upgrading : Pc → Bool
is_upgrading Pc.upgrade_wait = true
is_upgrading Pc.upgrade_asleep = true
is_upgrading _ = false

abbrev pub is_writer : Pc → Bool
is_writer Pc.holds_write = true
is_writer _ = false

abbrev pub unlocked : System Memory Pc
unlocked = record {
  mem = record { m_state = 0; m_read_cv = []; m_write_cv = [] };
  pc = λ _. Pc.idle;
}

-- The word of a lock with `r` readers, `u` more that wait for an upgrade, and `h` writers.
pub record Shape (r u h m : ℕ) : Type 0 where
  pub bit : ℕ
  pub bit_le : bit ≤ 1
  pub one : h ≤ 1
  pub one_upgrade : u ≤ 1
  pub upgrade_willing : u ≤ bit
  pub word : m ≡ r + u + 2 ^ 61 * u + 2 ^ 62 * bit + 2 ^ 63 * h
  pub excluded : h ≡ 1 → r + u ≡ 0

abbrev pub Local : Pc → Type 0
Local (Pc.read_wait e) = e < 2 ^ 62
Local (Pc.try_read_exchange e) = e < 2 ^ 62
Local (Pc.write_commit e) = e ≡ 2 ^ 62
Local (Pc.upgrade_announce e) = willing e ≡ 0
Local _ = Unit

Move-Local : {i : ℕ} {m m' : Memory} {p p' : Pc} → Move i m p m' p' → Local p → Local p'
Move-Local Move.read_loads l = omega arith
Move-Local (Move.try_read_loads q) l = omega arith
Move-Local (Move.write_passes q) l = q
Move-Local (Move.upgrade_loads q) l = q
Move-Local mv l = ground arith

with_willing_lem :
    (e low b h : ℕ)
    → low < 2 ^ 62
    → b ≤ 1
    → e ≡ low + 2 ^ 62 * b + 2 ^ 63 * h
    → with_willing e ≡ low + 2 ^ 62 + 2 ^ 63 * h
with_willing_lem e low b h small one q = ground arith

with_both_lem : (e : ℕ) → willing e ≡ 0 → with_updating (with_willing e) ≡ e + 2 ^ 61 + 2 ^ 62
with_both_lem e q = ground arith

with_write_lem : (e : ℕ) → e ≡ 2 ^ 62 → with_write e ≡ 2 ^ 62 + 2 ^ 63
with_write_lem e q = ground arith

-- A shape with the given announcement.
Shape-of :
    {r' u' h' m' : ℕ} (b : ℕ)
    → (b ≤ 1)
      × (h' ≤ 1)
      × (u' ≤ 1)
      × (u' ≤ b)
      × (m' ≡ r' + u' + 2 ^ 61 * u' + 2 ^ 62 * b + 2 ^ 63 * h')
    → (h' ≡ 1 → r' + u' ≡ 0)
    → Shape r' u' h' m'
Shape-of b (b1, h1, u1, ub, w) x = record {
  bit = b;
  bit_le = b1;
  one = h1;
  one_upgrade = u1;
  upgrade_willing = ub;
  word = w;
  excluded = x;
}

module _ (i r u h r' u' h' : ℕ) (small : r + 1 < 2 ^ 61) where
  abbrev Counted : Pc → Pc → Type 0
  Counted p p' =
      (r' + to_nat (is_reader p) ≡ r + to_nat (is_reader p'))
      × (u' + to_nat (is_upgrading p) ≡ u + to_nat (is_upgrading p'))
      × (h' + to_nat (is_writer p) ≡ h + to_nat (is_writer p'))

  Move-Shape :
      {m m' : Memory} {p p' : Pc}
      → Move i m p m' p'
      → Counted p p'
      → Local p
      → Shape r u h m.m_state
      → Shape r' u' h' m'.m_state
  Move-Shape (Move.read_wins e) c l s = Shape-of 0 (omega arith) (λ x. omega arith)
  Move-Shape (Move.try_read_wins e) c l s = Shape-of 0 (omega arith) (λ x. omega arith)
  Move-Shape Move.drop_read c l s = Shape-of s.bit (omega arith) (λ x. omega arith)
  Move-Shape (Move.announce_wins {e = e} q) c l s =
      Shape-of 1
        (omega (
          arith,
          with_willing_lem e (r + u + 2 ^ 61 * u) s.bit h (omega arith) s.bit_le (omega arith),
        ))
        (λ x. omega arith)
  Move-Shape (Move.commit_wins {e = e} q) c l s =
      Shape-of 1 (omega (arith, with_write_lem e l)) (λ x. omega arith)
  Move-Shape (Move.try_write_wins q) c l s = Shape-of 0 (omega arith) (λ x. omega arith)
  Move-Shape Move.drop_write c l s = Shape-of 0 (omega arith) (λ x. omega arith)
  Move-Shape (Move.upgrade_announces {e = e} q) c l s =
      Shape-of 1 (omega (arith, with_both_lem e l)) (λ x. omega arith)
  Move-Shape (Move.upgrade_wins q) c l s = Shape-of 1 (omega arith) (λ x. omega arith)
  Move-Shape Move.drop_refused c l s = Shape-of s.bit (omega arith) (λ x. omega arith)
  Move-Shape mv c l s = Shape-of s.bit (omega arith) (λ x. omega arith)

module _ (n : ℕ) (few : n + 1 < 2 ^ 61) where
  pub record Inv (s : System Memory Pc) : Type 0 where
    pub shape :
        Shape
          (count is_reader n s.pc)
          (count is_upgrading n s.pc)
          (count is_writer n s.pc)
          s.mem.m_state
    pub locals : (j : ℕ) → Local (s.pc j)

  Inv-unlocked : Inv unlocked
  Inv-unlocked = record {
    shape = record {
      bit = 0;
      bit_le = omega arith;
      one = omega (arith, none is_writer refl);
      one_upgrade = omega (arith, none is_upgrading refl);
      upgrade_willing = omega (arith, none is_upgrading refl);
      word = omega (arith, none is_writer refl, none is_reader refl, none is_upgrading refl);
      excluded = λ _. omega (arith, none is_reader refl, none is_upgrading refl);
    };
    locals = λ j. tt;
  }
    where
      none : (t : Pc → Bool) → t Pc.idle ≡ false → count t n (λ _. Pc.idle) ≡ 0
      none t e = count-zero t n (λ _. Pc.idle) (λ _. e)

  Move-Inv :
      (s : System Memory Pc) (i : ℕ) (m' : Memory) (p' : Pc)
      → i < n
      → Move i s.mem (s.pc i) m' p'
      → Inv s
      → Inv (record { mem = m'; pc = update s.pc i p' })
  Move-Inv s i m' p' lt mv inv = record {
    shape =
        Move-Shape i (count is_reader n s.pc) (count is_upgrading n s.pc) (count is_writer n s.pc)
          (count is_reader n (update s.pc i p')) (count is_upgrading n (update s.pc i p'))
          (count is_writer n (update s.pc i p')) (omega (arith, count-le is_reader n s.pc)) mv
          (
            count-update is_reader n s.pc i p' lt,
            count-update is_upgrading n s.pc i p' lt,
            count-update is_writer n s.pc i p' lt,
          )
          (inv.locals i) inv.shape;
    locals = update-all Local s.pc i p' inv.locals (Move-Local mv (inv.locals i));
  }

  -- From a free lock, with fewer than 2 ^ 61 - 1 threads that make any of its calls, no thread that
  -- holds a write guard, got by `write`, `try_write` or `upgrade`, shares the lock: no other thread
  -- holds a write guard, and none a read guard, also not one that it is about to upgrade.
  pub rwlock_excludes :
      {s : System Memory Pc}
      → Reach Move n unlocked s
      → (i j : ℕ) → i < n
      → j < n
      → s.pc i ≡ Pc.holds_write
      → (is_reader (s.pc j) ≡ false)
        × (is_upgrading (s.pc j) ≡ false)
        × (s.pc j ≡ Pc.holds_write → i ≡ j)
  rwlock_excludes {s} reach i j hi hj e = (
    dark is_reader (λ lit. omega (arith, empty, count-pos is_reader n s.pc j hj lit)),
    dark is_upgrading (λ lit. omega (arith, empty, count-pos is_upgrading n s.pc j hj lit)),
    λ writes. elim (ℕ_discrete i j) [
      | yes same ↦ same
      | no other ↦ absurd (
          omega (
            arith,
            shape.one,
            count-two is_writer n s.pc i j hi hj other (ap is_writer e) (ap is_writer writes),
          ))
    ],
  )
    where
      open (Reach-keeps Move n Inv Move-Inv reach Inv-unlocked) use {shape}

      held : 0 < count is_writer n s.pc
      held = count-pos is_writer n s.pc i hi (ap is_writer e)

      empty : count is_reader n s.pc + count is_upgrading n s.pc ≡ 0
      empty = shape.excluded (omega (arith, held, shape.one))

      dark : (t : Pc → Bool) → ¬ (t (s.pc j) ≡ true) → t (s.pc j) ≡ false
      dark t unlit = elim (Bool-cases (t (s.pc j))) [ inl lit ↦ absurd (unlit lit) | inr out ↦ out ]
