-- ===== src/Spinlock/Exclusion.antt =====
-- At most one thread holds the lock.
use asco.Prelude.{
  ℕ, ◌+◌, ◌<◌, ◌≡◌, refl, arith, to_nat, Bool, true, false, update, count, count-update, count-zero,
  count-pos, count-two, ap, ℕ_discrete,
}
use asco.Interleaving.{System, Reach, Reach-keeps}
use asco.Spinlock.{Pc, Move}

abbrev pub unlocked : System Bool Pc
unlocked = record { mem = false; pc = λ i. Pc.idle }

abbrev pub is_holder : Pc → Bool
is_holder Pc.holds = true
is_holder _ = false

-- `m_locked` counts the holders.
Move-count :
    {i : ℕ} {m m' : Bool} {p p' : Pc} (h h' : ℕ)
    → Move i m p m' p'
    → h' + to_nat (is_holder p) ≡ h + to_nat (is_holder p')
    → to_nat m ≡ h
    → to_nat m' ≡ h'
Move-count h h' (Move.lock_wins q) e t = ground arith
Move-count h h' (Move.try_lock_wins q) e t = ground arith
Move-count h h' Move.unlock e t = ground arith
Move-count h h' mv e t = ground arith

module _ (n : ℕ) where
  abbrev Inv : System Bool Pc → Type 0
  Inv s = to_nat s.mem ≡ count is_holder n s.pc

  -- From a free lock two threads never come to hold it at a time, and while one does the flag is
  -- set.
  pub lock_excludes :
      {s : System Bool Pc}
      → Reach Move n unlocked s
      → (i j : ℕ) → i < n
      → j < n
      → s.pc i ≡ Pc.holds
      → (s.mem ≡ true) × (s.pc j ≡ Pc.holds → i ≡ j)
  lock_excludes {s} reach i j hi hj e = (
    ground (arith, held, kept),
    λ other. elim (ℕ_discrete i j) [
      | yes same ↦ same
      | no ne ↦
          let two = count-two is_holder n s.pc i j hi hj ne (ap is_holder e) (ap is_holder other) in
          absurd (ground (arith, kept, two))
    ],
  )
    where
      kept : to_nat s.mem ≡ count is_holder n s.pc
      kept =
          Reach-keeps Move n Inv
            (λ t k m p lt mv h.
              Move-count (count is_holder n t.pc) (count is_holder n (update t.pc k p)) mv
                (count-update is_holder n t.pc k p lt) h)
            reach (omega (arith, count-zero is_holder n (λ _. Pc.idle) (λ _. refl)))

      held : 0 < count is_holder n s.pc
      held = count-pos is_holder n s.pc i hi (ap is_holder e)
