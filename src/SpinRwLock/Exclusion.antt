-- ===== src/SpinRwLock/Exclusion.antt =====
-- The lock excludes, as long as no two threads call `write`.
use asco.Prelude.{
  ℕ, ◌+◌, ◌*◌, ◌^◌, ◌≤◌, ◌<◌, ◌≡◌, refl, ◌≢◌, arith, to_nat, Bool, true, false, update, count,
  count-update, count-le, count-zero, count-pos, count-two, subst, sym, ◌∙◌, ap, update_self,
  update_ne, ℕ_discrete,
}
use asco.Interleaving.{System, Reach, Reach-keeps}
use asco.SpinRwLock.{Pc, Move}

abbrev pub is_reader : Pc → Bool
is_reader Pc.holds_read = true
is_reader _ = false

abbrev pub is_writer : Pc → Bool
is_writer Pc.holds_write = true
is_writer _ = false

-- `write` is called by thread `w` alone. The others may call all else.
pub data Guarded (w : ℕ) (i m : ℕ) (p : Pc) (m' : ℕ) (p' : Pc) : Type 0 where
  allowed : Move i m p m' p' → (p' ≡ Pc.write_load → i ≡ w) → Guarded w i m p m' p'

abbrev pub unlocked : System ℕ Pc
unlocked = record { mem = 0; pc = λ _. Pc.idle }

-- The word of a lock with `r` readers and `h` writers.
pub record Shape (r h m : ℕ) : Type 0 where
  pub bit : ℕ
  pub bit_le : bit ≤ 1
  pub one : h ≤ 1
  pub word : m ≡ r + 2 ^ 62 * bit + 2 ^ 63 * h
  pub excluded : h ≡ 1 → r ≡ 0

-- What the locals of thread `j` say, if `w` is the thread that calls `write`.
abbrev pub Local : ℕ → ℕ → ℕ → Pc → Type 0
Local w m j (Pc.read_exchange e) = e < 2 ^ 62
Local w m j (Pc.try_read_exchange e) = e < 2 ^ 62
Local w m j Pc.write_load = j ≡ w
Local w m j (Pc.write_announce e) = j ≡ w
Local w m j (Pc.write_wait e) = (j ≡ w) × (e ≡ 2 ^ 62)
Local w m j (Pc.write_commit e) = (j ≡ w) × (e ≡ 2 ^ 62) × (m ≡ 2 ^ 62)
Local w m j _ = Unit

module _ (w i r h r' h' : ℕ) (small : r < 2 ^ 62) where
  abbrev Counted : Pc → Pc → Type 0
  Counted p p' =
      (r' + to_nat (is_reader p) ≡ r + to_nat (is_reader p'))
      × (h' + to_nat (is_writer p) ≡ h + to_nat (is_writer p'))

  Move-Shape :
      {m m' : ℕ} {p p' : Pc}
      → Move i m p m' p'
      → Counted p p'
      → Local w m i p
      → Shape r h m
      → Shape r' h' m'
  Move-Shape (Move.read_wins e) c l s = record {
    bit = 0;
    bit_le = omega arith;
    one = omega arith;
    word = omega arith;
    excluded = λ x. omega arith;
  }
  Move-Shape (Move.try_read_wins e) c l s = record {
    bit = 0;
    bit_le = omega arith;
    one = omega arith;
    word = omega arith;
    excluded = λ x. omega arith;
  }
  Move-Shape Move.drop_read c l s = record {
    bit = s.bit;
    bit_le = s.bit_le;
    one = omega arith;
    word = omega arith;
    excluded = λ x. omega arith;
  }
  Move-Shape (Move.announce_wins {e = e} q) c l s = record {
    bit = 1;
    bit_le = omega arith;
    one = omega arith;
    word = ground arith;
    excluded = λ x. omega arith;
  }
  Move-Shape (Move.commit_wins q) c l s = record {
    bit = 1;
    bit_le = omega arith;
    one = omega arith;
    word = ground arith;
    excluded = λ x. omega arith;
  }
  Move-Shape (Move.try_write_wins q) c l s = record {
    bit = 0;
    bit_le = omega arith;
    one = omega arith;
    word = omega arith;
    excluded = λ x. omega arith;
  }
  Move-Shape Move.drop_write c l s = record {
    bit = 0;
    bit_le = omega arith;
    one = omega arith;
    word = omega arith;
    excluded = λ x. omega arith;
  }
  Move-Shape mv c l s = record {
    bit = s.bit;
    bit_le = s.bit_le;
    one = omega arith;
    word = omega arith;
    excluded = λ x. omega arith;
  }

  -- The thread that moves.
  Move-Local_self :
      {m m' : ℕ} {p p' : Pc}
      → Move i m p m' p'
      → (p' ≡ Pc.write_load → i ≡ w)
      → Local w m i p
      → Local w m' i p'
  Move-Local_self Move.read_loads o l = omega arith
  Move-Local_self (Move.try_read_loads q) o l = omega arith
  Move-Local_self Move.write o l = o refl
  Move-Local_self (Move.commit_fails q) o l = absurd (omega arith)
  Move-Local_self (Move.wait_matches q) o l = omega arith
  Move-Local_self mv o l = ground arith

  -- Another thread that is about to commit finds the word as it was.
  Move-kept :
      {m m' : ℕ} {p p' : Pc}
      → Move i m p m' p'
      → Counted p p'
      → Local w m i p
      → Shape r h m
      → i ≢ w
      → m ≡ 2 ^ 62
      → m' ≡ 2 ^ 62
  Move-kept (Move.read_wins e) c l s ne q = absurd (omega arith)
  Move-kept (Move.try_read_wins e) c l s ne q = absurd (omega arith)
  Move-kept Move.drop_read c l s ne q = absurd (omega arith)
  Move-kept (Move.announce_wins e) c l s ne q = absurd (ne l)
  Move-kept (Move.commit_wins e) c l s ne q = absurd (ne l.0)
  Move-kept (Move.try_write_wins e) c l s ne q = absurd (omega arith)
  Move-kept Move.drop_write c l s ne q = absurd (omega arith)
  Move-kept mv c l s ne q = q

-- The facts of another thread survive a move that keeps the word of a commit.
Local-other :
    (w m m' j : ℕ) (p : Pc) → (j ≡ w → m ≡ 2 ^ 62 → m' ≡ 2 ^ 62) → Local w m j p → Local w m' j p
Local-other w m m' j (Pc.write_commit e) keep l = (l.0, l.1, keep l.0 l.2)
Local-other w m m' j p keep l = ground arith

module _ (n w : ℕ) (few : n < 2 ^ 62) where
  pub record Inv (s : System ℕ Pc) : Type 0 where
    pub shape : Shape (count is_reader n s.pc) (count is_writer n s.pc) s.mem
    pub locals : (j : ℕ) → Local w s.mem j (s.pc j)

  Inv-unlocked : Inv unlocked
  Inv-unlocked = record {
    shape = record {
      bit = 0;
      bit_le = omega arith;
      one = omega (arith, none is_writer refl);
      word = omega (arith, none is_reader refl, none is_writer refl);
      excluded = λ _. none is_reader refl;
    };
    locals = λ j. tt;
  }
    where
      none : (t : Pc → Bool) → t Pc.idle ≡ false → count t n (λ _. Pc.idle) ≡ 0
      none t e = count-zero t n (λ _. Pc.idle) (λ _. e)

  Guarded-Inv :
      (s : System ℕ Pc) (i m' : ℕ) (p' : Pc)
      → i < n
      → Guarded w i s.mem (s.pc i) m' p'
      → Inv s
      → Inv (record { mem = m'; pc = update s.pc i p' })
  Guarded-Inv s i m' p' lt (allowed mv own) inv = record {
    shape = Move-Shape w i r h r' h' small mv moved (inv.locals i) inv.shape;
    locals = λ j. elim (ℕ_discrete i j) [
      | yes same ↦
          subst (λ x. Local w m' x (update s.pc i p' x)) same
            (subst (Local w m' i) (sym (update_self s.pc i p'))
              (Move-Local_self w i r h r' h' small mv own (inv.locals i)))
      | no other ↦ subst (Local w m' j) (sym (update_ne s.pc i j p' other)) (
          Local-other w s.mem m' j (s.pc j)
            (λ mine.
              Move-kept w i r h r' h' small mv moved (inv.locals i) inv.shape
                (λ e. other (e ∙ sym mine)))
            (inv.locals j))
    ];
  }
    where
      r : ℕ
      r = count is_reader n s.pc

      h : ℕ
      h = count is_writer n s.pc

      r' : ℕ
      r' = count is_reader n (update s.pc i p')

      h' : ℕ
      h' = count is_writer n (update s.pc i p')

      small : r < 2 ^ 62
      small = omega (arith, count-le is_reader n s.pc)

      moved : Counted w i r h r' h' small (s.pc i) p'
      moved = (count-update is_reader n s.pc i p' lt, count-update is_writer n s.pc i p' lt)

  -- From a free lock, with fewer than 2 ^ 62 threads, of which one at most calls `write`, no
  -- thread that holds a write guard shares the lock: no other thread holds a write guard, and
  -- none a read guard.
  pub write_excludes :
      {s : System ℕ Pc}
      → Reach (Guarded w) n unlocked s
      → (i j : ℕ) → i < n
      → j < n
      → s.pc i ≡ Pc.holds_write
      → (s.pc j ≢ Pc.holds_read) × (s.pc j ≡ Pc.holds_write → i ≡ j)
  write_excludes {s} reach i j hi hj e = (
    λ reads. omega (
      arith,
      shape.excluded (omega (arith, held, shape.one)),
      count-pos is_reader n s.pc j hj (ap is_reader reads),
    ),
    λ writes. elim (ℕ_discrete i j) [
      | yes same ↦ same
      | no other ↦ absurd (
          omega (
            arith,
            shape.one,
            count-two is_writer n s.pc i j hi hj other (ap is_writer e) (ap is_writer writes),
          ))
    ],
  )
    where
      open (Reach-keeps (Guarded w) n Inv Guarded-Inv reach Inv-unlocked) use {shape}

      held : 0 < count is_writer n s.pc
      held = count-pos is_writer n s.pc i hi (ap is_writer e)
