-- ===== src/Guards/Classes.antt =====
-- The classes, each as it is written in its file. A guard without a value is its pointer, of which only
-- counts whether it is null.
use asco.Prelude.{ℕ, Bool, true, false, to_nat}
use asco.Guards.{GuardClass}

-- `m_lock{rhs.m_lock}` and `rhs.m_lock = nullptr`
abbrev pub take_pointer : Bool → Bool × Bool
take_pointer m_lock = (m_lock, false)

-- `this->~guard()` and `new (this) guard{std::move(rhs)}`
abbrev pub rebuild : {G : Type 0} → (G → ℕ) → (G → G × G) → G → G → (G × G) × ℕ
rebuild destroy move this rhs = (move rhs, destroy this)

-- `m_spinrwlock = rhs.m_spinrwlock` and `rhs.m_spinrwlock = nullptr`
abbrev pub overwrite : Bool → Bool → (Bool × Bool) × ℕ
overwrite this rhs = (take_pointer rhs, 0)

-- A guard that is a pointer, with its assignment.
abbrev pub pointer : (Bool → Bool → (Bool × Bool) × ℕ) → GuardClass Bool
pointer assign = record {
  empty = false;
  locked = true;
  opens = λ m_lock. m_lock;
  destroy = to_nat;
  move = take_pointer;
  assign = assign;
}

-- `spinlock<>::guard`
abbrev pub spinlock_guard : GuardClass Bool
spinlock_guard = pointer (rebuild to_nat take_pointer)

-- `mutex<>::guard`
abbrev pub mutex_guard : GuardClass Bool
mutex_guard = pointer (rebuild to_nat take_pointer)

-- `rwlock<>::write_guard`
abbrev pub write_guard : GuardClass Bool
write_guard = pointer (rebuild to_nat take_pointer)

-- `rwlock<>::read_guard`
abbrev pub read_guard : GuardClass Bool
read_guard = pointer (rebuild to_nat take_pointer)

-- `hash_map::guard`
abbrev pub bucket_guard : GuardClass Bool
bucket_guard = pointer (rebuild to_nat take_pointer)

-- `spinrwlock<>::read_guard`
abbrev pub spin_read_guard : GuardClass Bool
spin_read_guard = pointer overwrite

-- `spinrwlock<>::write_guard`
abbrev pub spin_write_guard : GuardClass Bool
spin_write_guard = pointer overwrite

-- A guard of a lock with a value: whether it points to the lock, and the guard inside.
pub record Typed : Type 0 where
  pub m_lock : Bool
  pub m_guard : Bool

-- The destructor destroys the guard inside.
abbrev pub destroy_inside : Typed → ℕ
destroy_inside g = to_nat g.m_guard

-- The move constructor that moves the guard inside as well.
abbrev pub take_both : Typed → Typed × Typed
take_both rhs =
    let inside = take_pointer rhs.m_guard in
    (
      record { m_lock = rhs.m_lock; m_guard = inside.0 },
      record { m_lock = false; m_guard = inside.1 },
    )

abbrev pub both_moved : GuardClass Typed
both_moved = record {
  empty = record { m_lock = false; m_guard = false };
  locked = record { m_lock = true; m_guard = true };
  opens = λ g. g.m_lock;
  destroy = destroy_inside;
  move = take_both;
  assign = rebuild destroy_inside take_both;
}

-- `spinlock<T>::guard`
abbrev pub spinlock_typed_guard : GuardClass Typed
spinlock_typed_guard = both_moved

-- `mutex<T>::guard`
abbrev pub mutex_typed_guard : GuardClass Typed
mutex_typed_guard = both_moved

-- `rwlock<T>::write_guard`
abbrev pub write_typed_guard : GuardClass Typed
write_typed_guard = both_moved

-- `rwlock<T>::read_guard`
abbrev pub read_typed_guard : GuardClass Typed
read_typed_guard = both_moved

-- The move constructor that leaves the guard inside where it is: `m_guard` is constructed empty.
abbrev pub take_outside : Typed → Typed × Typed
take_outside rhs = (record { m_lock = rhs.m_lock; m_guard = false }, record rhs { m_lock = false })

-- The assignment that does so.
abbrev pub overwrite_outside : Typed → Typed → (Typed × Typed) × ℕ
overwrite_outside this rhs =
    ((record this { m_lock = rhs.m_lock }, record rhs { m_lock = false }), 0)

abbrev pub outside_moved : GuardClass Typed
outside_moved = record both_moved { move = take_outside; assign = overwrite_outside }

-- `spinrwlock<T>::read_guard`
abbrev pub spin_read_typed_guard : GuardClass Typed
spin_read_typed_guard = outside_moved

-- `spinrwlock<T>::write_guard`
abbrev pub spin_write_typed_guard : GuardClass Typed
spin_write_typed_guard = outside_moved
