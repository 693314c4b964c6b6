-- ===== src/Guards/Stray.antt =====
-- The guards of asco/sync/spinrwlock.h, which do not always own what they hold.
use asco.Prelude.{
  ℕ, ◌-◌, ◌≡◌, ◌≢◌, sym, ap, ◌∙◌, arith, Bool, true, false, to_nat, update, update_self, update_ne,
}
use asco.Guards.{GuardClass, Program, after_move, after_assign, after_destroy}
use asco.Guards.Classes.{
  Typed, take_outside, destroy_inside, overwrite, pointer, outside_moved, spin_read_guard,
  spin_write_guard, spin_read_typed_guard, spin_write_typed_guard,
}

-- For readers or for writers.
pub data Side : Type 0 where
  reading writing : Side

abbrev pub typed_class : Side → GuardClass Typed
typed_class Side.reading = spin_read_typed_guard
typed_class Side.writing = spin_write_typed_guard

abbrev pub plain_class : Side → GuardClass Bool
plain_class Side.reading = spin_read_guard
plain_class Side.writing = spin_write_guard

abbrev pub held : Typed
held = record { m_lock = true; m_guard = true }

module _ (p : Program Typed) (i j : ℕ) (ne : i ≢ j) (h : p.vars j ≡ held) where
  abbrev moved : Program Typed
  moved = after_destroy outside_moved (after_move outside_moved p i j) j

  moved_new : moved.vars i ≡ record { m_lock = true; m_guard = false }
  moved_new =
      update_ne (update (update p.vars i (take_outside (p.vars j)).0) j _) j i _ (λ e. ne (sym e))
      ∙ update_ne (update p.vars i (take_outside (p.vars j)).0) j i _ (λ e. ne (sym e))
      ∙ update_self p.vars i (take_outside (p.vars j)).0
      ∙ ap (λ g. (take_outside g).0) h

  moved_old : (after_move outside_moved p i j).vars j ≡ record { m_lock = false; m_guard = true }
  moved_old =
      update_self (update p.vars i (take_outside (p.vars j)).0) j (take_outside (p.vars j)).1
      ∙ ap (λ g. (take_outside g).1) h

  moved_unlocks : (moved.vars i).m_lock ≡ true × (moved.taken ≡ p.taken - 1)
  moved_unlocks =
      (ap (λ (g : Typed). g.m_lock) moved_new, ap (λ g. p.taken - destroy_inside g) moved_old)

module _ (p : Program Bool) (i j : ℕ) (ne : i ≢ j) (hi : p.vars i ≡ true)
    (hj : p.vars j ≡ true) where
  abbrev assigned : Program Bool
  assigned = after_assign (pointer overwrite) p i j

  assigned_to : assigned.vars i ≡ true
  assigned_to =
      update_ne (update p.vars i (p.vars j)) j i false (λ e. ne (sym e))
      ∙ update_self p.vars i (p.vars j)
      ∙ hj

  assigned_from : (after_destroy (pointer overwrite) assigned i).vars j ≡ false
  assigned_from =
      update_ne assigned.vars i j false ne ∙ update_self (update p.vars i (p.vars j)) j false

  assigned_leaks :
      (after_destroy (pointer overwrite) (after_destroy (pointer overwrite) assigned i) j).taken
      ≡ p.taken - 1
  assigned_leaks = omega (arith, ap to_nat assigned_to, ap to_nat assigned_from)

-- When a guard that holds a spinning reader-writer lock with a value is moved into a new one and the
-- old one is destroyed, the lock is given back, and the new guard still lets its holder in.
pub moved_guard_opens :
    (side : Side) (p : Program Typed) (i j : ℕ)
    → i ≢ j
    → p.vars j ≡ held
    → let c = typed_class side in
      let q = after_destroy c (after_move c p i j) j in
      (c.opens (q.vars i) ≡ true) × (q.taken ≡ p.taken - 1)
moved_guard_opens Side.reading p i j ne h = moved_unlocks p i j ne h
moved_guard_opens Side.writing p i j ne h = moved_unlocks p i j ne h

-- When a guard that holds a spinning reader-writer lock is assigned to another that holds it too, the
-- two destructors together give it back once, so that it stays taken.
pub assigned_guard_leaks :
    (side : Side) (p : Program Bool) (i j : ℕ)
    → i ≢ j
    → p.vars i ≡ true
    → p.vars j ≡ true
    → let c = plain_class side in
      (after_destroy c (after_destroy c (after_assign c p i j) i) j).taken ≡ p.taken - 1
assigned_guard_leaks Side.reading p i j ne hi hj = assigned_leaks p i j ne hi hj
assigned_guard_leaks Side.writing p i j ne hi hj = assigned_leaks p i j ne hi hj
