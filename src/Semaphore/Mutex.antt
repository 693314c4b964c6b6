-- ===== src/Semaphore/Mutex.antt =====
-- asco/sync/mutex.h: a mutex is a binary semaphore that starts at 1. `lock` is `acquire`, `try_lock` is
-- `try_acquire`, and the guard's destructor calls `release()`; nothing else touches the semaphore.
use asco.Prelude.{
  ℕ, ◌+◌, ◌<◌, ◌≡◌, refl, ◌≢◌, arith, to_nat, Bool, true, false, update, count, count-update,
  count-zero, count-pos, count-two, subst, sym, ap, update_self, update_ne, ℕ_discrete, [],
}
use asco.Interleaving.{System, Reach, Reach-keeps}
use asco.Semaphore.{Memory, Pc, Move}

-- A move of a thread that releases what it holds, one unit of it, and nothing else.
pub data Locking (i : ℕ) (m : Memory) (p : Pc) (m' : Memory) (p' : Pc) : Type 0 where
  locking :
      Move 1 i m p m' p'
      → ((n : ℕ) → p ≡ Pc.idle → p' ≢ Pc.release_load n)
      → (p ≡ Pc.holds → p' ≡ Pc.release_load 1)
      → Locking i m p m' p'

abbrev pub unlocked : System Memory Pc
unlocked = record { mem = record { m_count = 1; waiters = [] }; pc = λ i. Pc.idle }

-- Between the end of `lock` and the step of the guard's destructor that raises the count.
abbrev pub is_holder : Pc → Bool
is_holder Pc.holds = true
is_holder (Pc.release_load n) = true
is_holder (Pc.release_notify n e) = true
is_holder (Pc.release_exchange n e) = true
is_holder _ = false

abbrev pub Local : Pc → Type 0
Local (Pc.exchange r e) = 0 < e
Local (Pc.try_exchange e) = 0 < e
Local (Pc.release_load n) = n ≡ 1
Local (Pc.release_notify n e) = n ≡ 1
Local (Pc.release_exchange n e) = n ≡ 1
Local _ = Unit

Locking-Local : {i : ℕ} {m m' : Memory} {p p' : Pc} → Locking i m p m' p' → Local p → Local p'
Locking-Local (locking (Move.release n) a b) l = ground (arith, b refl)
Locking-Local (locking (Move.post n) a b) l = absurd (a n refl refl)
Locking-Local (locking (Move.try_loads q) a b) l = omega arith
Locking-Local (locking (Move.loads q) a b) l = omega arith
Locking-Local (locking mv a b) l = ground arith

-- The count and the holders together stay 1.
Locking-total :
    {i : ℕ} {m m' : Memory} {p p' : Pc} (h h' : ℕ)
    → Locking i m p m' p'
    → Local p
    → h' + to_nat (is_holder p) ≡ h + to_nat (is_holder p')
    → m.m_count + h ≡ 1
    → m'.m_count + h' ≡ 1
Locking-total h h' (locking (Move.try_wins q) a b) l e t = omega arith
Locking-total h h' (locking (Move.wins q) a b) l e t = omega arith
Locking-total h h' (locking (Move.notifies w q) a b) l e t = omega arith
Locking-total h h' (locking (Move.release_wins q) a b) l e t = omega arith
Locking-total h h' (locking (Move.post n) a b) l e t = absurd (a n refl refl)
Locking-total h h' (locking mv a b) l e t = ground arith

module _ (n : ℕ) where
  pub record Inv (s : System Memory Pc) : Type 0 where
    pub total : s.mem.m_count + count is_holder n s.pc ≡ 1
    pub locals : (j : ℕ) → Local (s.pc j)

  Inv-unlocked : Inv unlocked
  Inv-unlocked = record {
    total = omega (arith, count-zero is_holder n (λ _. Pc.idle) (λ _. refl));
    locals = λ j. tt;
  }

  Locking-Inv :
      (s : System Memory Pc) (i : ℕ) (m' : Memory) (p' : Pc)
      → i < n
      → Locking i s.mem (s.pc i) m' p'
      → Inv s
      → Inv (record { mem = m'; pc = update s.pc i p' })
  Locking-Inv s i m' p' lt mv inv = record {
    total =
        Locking-total (count is_holder n s.pc) (count is_holder n (update s.pc i p')) mv
          (inv.locals i) (count-update is_holder n s.pc i p' lt) inv.total;
    locals = λ j. elim (ℕ_discrete i j) [
      | yes same ↦
          subst (λ x. Local (update s.pc i p' x)) same
            (subst Local (sym (update_self s.pc i p')) (Locking-Local mv (inv.locals i)))
      | no other ↦ subst Local (sym (update_ne s.pc i j p' other)) (inv.locals j)
    ];
  }

  -- From a free mutex, whose semaphore only `lock`, `try_lock` and its guards use, two threads
  -- never come to hold it at a time, and while one does the count is 0.
  pub mutex_excludes :
      {s : System Memory Pc}
      → Reach Locking n unlocked s
      → (i j : ℕ) → i < n
      → j < n
      → s.pc i ≡ Pc.holds
      → (s.mem.m_count ≡ 0) × (s.pc j ≡ Pc.holds → i ≡ j)
  mutex_excludes {s} reach i j hi hj e = (
    omega (arith, total, count-pos is_holder n s.pc i hi (ap is_holder e)),
    λ other. elim (ℕ_discrete i j) [
      | yes same ↦ same
      | no ne ↦ absurd (
          omega (
            arith,
            total,
            count-two is_holder n s.pc i j hi hj ne (ap is_holder e) (ap is_holder other),
          ))
    ],
  )
    where
      open (Reach-keeps Locking n Inv Locking-Inv reach Inv-unlocked) use {total}
