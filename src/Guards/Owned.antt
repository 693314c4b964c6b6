-- ===== src/Guards/Owned.antt =====
-- Guards that own what they hold.
use asco.Prelude.{
  ℕ, ◌+◌, ◌≤◌, ◌≡◌, refl, sym, ap, ◌∙◌, arith, Bool, true, to_nat, update, update-all, weight,
  weightless, weight-within, weight-within_both, weight_mono, Bool-cases, inl, inr,
}
use asco.Guards.{
  GuardClass, Program, beginning, Step, locks, moves, assigns, assigns_itself, destroys, Reach,
  start, later,
}
use asco.Guards.Classes.{
  Typed, spinlock_guard, mutex_guard, write_guard, read_guard, bucket_guard, spinlock_typed_guard,
  mutex_typed_guard, write_typed_guard, read_typed_guard,
}

module _ {G : Type 0} (c : GuardClass G) where
  -- What a class must do, on the guards that can arise.
  pub record Sound : Type 1 where
    pub IsValid : G → Type 0
    pub empty-IsValid : IsValid c.empty
    pub locked-IsValid : IsValid c.locked
    pub move-IsValid : (g : G) → IsValid g → IsValid (c.move g).0 × IsValid (c.move g).1
    pub assign-IsValid :
        (g h : G) → IsValid g → IsValid h → IsValid (c.assign g h).0.0 × IsValid (c.assign g h).0.1
    pub destroy_empty : c.destroy c.empty ≡ 0
    pub destroy_locked : c.destroy c.locked ≡ 1
    pub move_keeps : (g : G) → c.destroy (c.move g).0 + c.destroy (c.move g).1 ≡ c.destroy g
    pub assign_keeps :
        (g h : G)
        → let r = c.assign g h in
          r.1 + c.destroy r.0.0 + c.destroy r.0.1 ≡ c.destroy g + c.destroy h
    pub opens_held : (g : G) → IsValid g → c.opens g ≡ true → c.destroy g ≡ 1

module _ {G : Type 0} (c : GuardClass G) (sound : Sound c) (n : ℕ) where
  record Inv (p : Program G) : Type 0 where
    pub held : p.taken ≡ weight c.destroy p.vars n
    pub valid : (i : ℕ) → sound.IsValid (p.vars i)

  both-valid :
      (f : ℕ → G) (i j : ℕ) (a b : G)
      → ((k : ℕ) → sound.IsValid (f k))
      → sound.IsValid a × sound.IsValid b
      → (k : ℕ) → sound.IsValid (update (update f i a) j b k)
  both-valid f i j a b h ab =
      update-all sound.IsValid (update f i a) j b (update-all sound.IsValid f i a h ab.0) ab.1

  Step-Inv : {p q : Program G} → Step c n p q → Inv p → Inv q
  Step-Inv {p} (locks i lt dead) inv = record {
    held = omega (
      arith,
      inv.held,
      weight-within c.destroy p.vars i n c.locked lt,
      sound.destroy_locked,
      sound.destroy_empty,
      ap c.destroy dead,
    );
    valid = update-all sound.IsValid p.vars i c.locked inv.valid sound.locked-IsValid;
  }
  Step-Inv {p} (moves i j hi hj ne dead) inv =
      let r = c.move (p.vars j) in
      record {
        held = omega (
          arith,
          inv.held,
          weight-within_both c.destroy p.vars i j n r.0 r.1 hi hj ne,
          sound.move_keeps (p.vars j),
          sound.destroy_empty,
          ap c.destroy dead,
        );
        valid = both-valid p.vars i j r.0 r.1 inv.valid (sound.move-IsValid _ (inv.valid j));
      }
  Step-Inv {p} (assigns i j hi hj ne) inv =
      let r = c.assign (p.vars i) (p.vars j) in
      record {
        held = omega (
          arith,
          inv.held,
          weight-within_both c.destroy p.vars i j n r.0.0 r.0.1 hi hj ne,
          sound.assign_keeps (p.vars i) (p.vars j),
        );
        valid =
            both-valid p.vars i j r.0.0 r.0.1 inv.valid
              (sound.assign-IsValid _ _ (inv.valid i) (inv.valid j));
      }
  Step-Inv (assigns_itself i) inv = inv
  Step-Inv {p} (destroys i lt) inv = record {
    held =
        omega (arith, inv.held, weight-within c.destroy p.vars i n c.empty lt, sound.destroy_empty);
    valid = update-all sound.IsValid p.vars i c.empty inv.valid sound.empty-IsValid;
  }

  Reach-Inv : {p q : Program G} → Reach c n p q → Inv p → Inv q
  Reach-Inv start inv = inv
  Reach-Inv (later r s) inv = Step-Inv s (Reach-Inv r inv)

  beginning-Inv : Inv (beginning c)
  beginning-Inv = record {
    held = omega (arith, weightless c.destroy (λ _. c.empty) n (λ _. sound.destroy_empty));
    valid = λ i. sound.empty-IsValid;
  }

  opens-le : {p : Program G} → Inv p → (i : ℕ) → to_nat (c.opens (p.vars i)) ≤ c.destroy (p.vars i)
  opens-le {p} inv i = elim (Bool-cases (c.opens (p.vars i))) [
    | inl opened ↦ omega (arith, sound.opens_held (p.vars i) (inv.valid i) opened, ap to_nat opened)
    | inr shut ↦ omega (arith, ap to_nat shut)
  ]

  pub owned :
      {p : Program G}
      → Reach c n (beginning c) p
      → (p.taken ≡ weight c.destroy p.vars n)
        × (weight (λ g. to_nat (c.opens g)) p.vars n ≤ p.taken)
  owned {p} reach =
      let inv = Reach-Inv reach beginning-Inv in
      (
        inv.held,
        omega (
          arith,
          inv.held,
          weight_mono (λ g. to_nat (c.opens g)) c.destroy p.vars n (opens-le inv),
        ),
      )

-- The classes that pass the guard on when they are moved.
pub data Kind : Type 0 where
  spinlock mutex rwlock_write rwlock_read hash_map : Kind
  spinlock_typed mutex_typed rwlock_typed_write rwlock_typed_read : Kind

abbrev pub Guard : Kind → Type 0
Guard Kind.spinlock = Bool
Guard Kind.mutex = Bool
Guard Kind.rwlock_write = Bool
Guard Kind.rwlock_read = Bool
Guard Kind.hash_map = Bool
Guard Kind.spinlock_typed = Typed
Guard Kind.mutex_typed = Typed
Guard Kind.rwlock_typed_write = Typed
Guard Kind.rwlock_typed_read = Typed

abbrev pub class : (k : Kind) → GuardClass (Guard k)
class Kind.spinlock = spinlock_guard
class Kind.mutex = mutex_guard
class Kind.rwlock_write = write_guard
class Kind.rwlock_read = read_guard
class Kind.hash_map = bucket_guard
class Kind.spinlock_typed = spinlock_typed_guard
class Kind.mutex_typed = mutex_typed_guard
class Kind.rwlock_typed_write = write_typed_guard
class Kind.rwlock_typed_read = read_typed_guard

pointer-Sound : Sound spinlock_guard
pointer-Sound = record {
  IsValid = λ g. Unit {0};
  empty-IsValid = tt;
  locked-IsValid = tt;
  move-IsValid = λ g _. (tt, tt);
  assign-IsValid = λ g h _ _. (tt, tt);
  destroy_empty = refl;
  destroy_locked = refl;
  move_keeps = λ g. omega arith;
  assign_keeps = λ g h. omega arith;
  opens_held = λ g _ e. ap to_nat e;
}

typed-Sound : Sound spinlock_typed_guard
typed-Sound = record {
  IsValid = λ g. g.m_lock ≡ g.m_guard;
  empty-IsValid = refl;
  locked-IsValid = refl;
  move-IsValid = λ g e. (e, refl);
  assign-IsValid = λ g h e e'. (e', refl);
  destroy_empty = refl;
  destroy_locked = refl;
  move_keeps = λ g. omega arith;
  assign_keeps = λ g h. omega arith;
  opens_held = λ g valid e. ap to_nat (sym valid ∙ e);
}

class-Sound : (k : Kind) → Sound (class k)
class-Sound Kind.spinlock = pointer-Sound
class-Sound Kind.mutex = pointer-Sound
class-Sound Kind.rwlock_write = pointer-Sound
class-Sound Kind.rwlock_read = pointer-Sound
class-Sound Kind.hash_map = pointer-Sound
class-Sound Kind.spinlock_typed = typed-Sound
class-Sound Kind.mutex_typed = typed-Sound
class-Sound Kind.rwlock_typed_write = typed-Sound
class-Sound Kind.rwlock_typed_read = typed-Sound

-- Of the guards of spinlocks, mutexes, the tasks' reader-writer locks, with a value and without, and
-- of the hash map: in every program that locks, moves, assigns and destroys guards, the lock is taken
-- as often as the destructors of its variables will give it back, and at least as often as it has
-- variables that let their holder in.
pub guards_lem :
    (k : Kind) (n : ℕ) {p : Program (Guard k)}
    → Reach (class k) n (beginning (class k)) p
    → (p.taken ≡ weight (class k).destroy p.vars n)
      × (weight (λ g. to_nat ((class k).opens g)) p.vars n ≤ p.taken)
guards_lem k n reach = owned (class k) (class-Sound k) n reach
