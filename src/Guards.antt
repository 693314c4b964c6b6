-- ===== src/Guards.antt =====
-- The guards of asco/sync and of asco/concurrency/hash_map.h as objects: what their constructors, assignments
-- and destructors do to the lock that they give back. There is one lock (of a hash map, one bucket), and a
-- program with `n` variables for its guards.
pub mod Classes
pub mod Owned
pub mod Stray
mod Examples
use asco.Prelude.{ℕ, zero, suc, ◌+◌, ◌-◌, ◌<◌, ◌≡◌, ◌≢◌, Bool, update}

-- A class of guards.
pub record GuardClass (G : Type 0) : Type 0 where
  -- the default constructor, and the guard that a successful call of the lock returns
  pub empty : G
  pub locked : G
  -- whether `operator*`, `operator->` or, where there are none, `operator bool` let the holder in
  pub opens : G → Bool
  -- how many times the destructor gives the lock back
  pub destroy : G → ℕ
  -- the move constructor: the new guard, and what is left of the old one
  pub move : G → G × G
  -- the move assignment from another guard: both guards, and how many times it gives the lock back
  pub assign : G → G → (G × G) × ℕ

-- How many times the lock is taken, and the variables.
pub record Program (G : Type 0) : Type 0 where
  pub taken : ℕ
  pub vars : ℕ → G

abbrev pub beginning : {G : Type 0} → GuardClass G → Program G
beginning c = record { taken = 0; vars = λ _. c.empty }

module _ {G : Type 0} (c : GuardClass G) where
  -- Variable `i` is constructed from variable `j`.
  abbrev pub after_move : Program G → ℕ → ℕ → Program G
  after_move p i j =
      let r = c.move (p.vars j) in record p { vars = update (update p.vars i r.0) j r.1 }

  -- Variable `j` is moved into variable `i` by assignment.
  abbrev pub after_assign : Program G → ℕ → ℕ → Program G
  after_assign p i j =
      let r = c.assign (p.vars i) (p.vars j) in
      record { taken = p.taken - r.1; vars = update (update p.vars i r.0.0) j r.0.1 }

  abbrev pub after_destroy : Program G → ℕ → Program G
  after_destroy p i = record {
    taken = p.taken - c.destroy (p.vars i);
    vars = update p.vars i c.empty;
  }

module _ {G : Type 0} (c : GuardClass G) (n : ℕ) where
  -- A statement of the program. A variable whose lifetime has not begun, or is over, holds the empty
  -- guard.
  pub data Step (p : Program G) : Program G → Type 0 where
    locks :
        (i : ℕ)
        → i < n
        → p.vars i ≡ c.empty
        → Step p (record { taken = p.taken + 1; vars = update p.vars i c.locked })
    moves : (i j : ℕ) → i < n → j < n → i ≢ j → p.vars i ≡ c.empty → Step p (after_move c p i j)
    assigns : (i j : ℕ) → i < n → j < n → i ≢ j → Step p (after_assign c p i j)
    -- the assignment of a variable to itself, which is tested first
    assigns_itself : (i : ℕ) → Step p p
    destroys : (i : ℕ) → i < n → Step p (after_destroy c p i)

  pub data Reach (p : Program G) : Program G → Type 0 where
    start : Reach p p
    later : {q r : Program G} → Reach p q → Step q r → Reach p r
