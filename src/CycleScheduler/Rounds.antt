-- ===== src/CycleScheduler/Rounds.antt =====
-- `schedule` goes round to the next execution that can run.
use native.Mathlib.Nat.{mod-eq_of_lt, mod-lt, mod-add-mod}
use asco.Prelude.{
  ℕ, zero, suc, ◌+◌, ◌%◌, ◌^◌, ◌<◌, ◌≡◌, refl, arith, ap, sym, ◌∙◌, true, false, Option, some, ◌⊎◌,
  inl, inr, Bool-cases, ℕ_discrete, ◌||◌, not,
}
use asco.Prelude.Pigeonhole.{covers}
use asco.Prelude.Cycle.{apart}
use asco.Murmur.{u64}
use asco.CycleScheduler.{Slot, Scheduler, skips, schedule}

-- The turns of one round reach every slot.
reaches : (n c i : ℕ) → i < n → (d : ℕ) × (d < n) × ((c + d) % n ≡ i)
reaches n c i h = covers n (λ d. (c + d) % n) (λ d lt. mod-lt (c + d) (omega arith)) distinct i h
  where
    distinct : (x y : ℕ) → x < n → y < n → (c + x) % n ≡ (c + y) % n → x ≡ y
    distinct x y hx hy e =
        apart n (c % n) x y (mod-lt c (omega arith)) hx hy
          (mod-add-mod c n x ∙ e ∙ sym (mod-add-mod c n y))

module _ {P : Type 0} (n : ℕ) where
  abbrev pub at_turn : Scheduler P → ℕ → Scheduler P
  at_turn s c = record s { m_current = c }

  step : (s : Scheduler P) → s.m_current + 1 < 2 ^ 64 → u64 (s.m_current + 1) ≡ s.m_current + 1
  step s h = mod-eq_of_lt h

  -- If the `d`-th slot from the current one is the first that can run, `schedule` returns it after
  -- `d + 1` rounds, for any number of rounds that it is given from there on, and goes on behind it.
  schedule_first :
      (d k : ℕ) (s : Scheduler P)
      → s.m_current + d + 1 < 2 ^ 64
      → d < k
      → ((j : ℕ) → j < d → skips n s (s.m_current + j) ≡ true)
      → skips n s (s.m_current + d) ≡ false
      → schedule n k s ≡ some ((s.m_current + d) % n, at_turn s (s.m_current + d + 1))
  unfolding schedule
  schedule_first d zero s small h busy free = absurd (omega arith)
  schedule_first zero (suc k) s small h busy free =
      let here : s.m_current + 0 ≡ s.m_current = omega arith in
      let free' : skips n s s.m_current ≡ false = ap (skips n s) (sym here) ∙ free in
      rw (free', step s (omega arith)) (ap (λ (c : ℕ). some (c % n, at_turn s (c + 1))) (sym here))
  schedule_first (suc d) (suc k) s small h busy free =
      let busy' : skips n s s.m_current ≡ true =
        ap (skips n s) (omega arith) ∙ busy 0 (omega arith) in
      let far : s.m_current + 1 + d ≡ s.m_current + suc d = omega arith in
      rw (busy', step s (omega arith))
        (schedule_first d k (at_turn s (s.m_current + 1)) (omega arith) (omega arith)
            (λ j lt. ap (skips n s) (omega arith) ∙ busy (suc j) (omega arith))
            (ap (skips n s) far ∙ free)
          ∙ ap (λ (c : ℕ). some (c % n, at_turn s (c + 1))) far)

  -- The first of `k` slots from the current one that can run, or the fact that all are passed over.
  first_free :
      (k : ℕ) (s : Scheduler P)
      → ((d : ℕ) × (d < k)
          × ((j : ℕ) → j < d → skips n s (s.m_current + j) ≡ true)
          × (skips n s (s.m_current + d) ≡ false))
        ⊎ ((j : ℕ) → j < k → skips n s (s.m_current + j) ≡ true)
  first_free zero s = inr (λ j h. absurd (omega arith))
  first_free (suc k) s = elim (first_free k s) [
    | inl (d, h, busy, free) ↦ inl (d, omega arith, busy, free)
    | inr busy ↦ elim (Bool-cases (skips n s (s.m_current + k))) [
      | inl last ↦ inr (λ j h. elim (ℕ_discrete j k) [
        | yes same ↦ ap (λ (x : ℕ). skips n s (s.m_current + x)) same ∙ last
        | no before ↦ busy j (omega arith)
      ])
      | inr free ↦ inl (k, omega arith, busy, free)
    ]
  ]

  -- The slot at turn `c`.
  abbrev pub slot_at : Scheduler P → ℕ → Slot
  slot_at s c = s.m_executions (c % n)

  skips-true :
      (s : Scheduler P) (c : ℕ)
      → skips n s c ≡ true
      → ((slot_at s c).active ≡ false) ⊎ ((slot_at s c).detached ≡ true)
  skips-true s c h = ground arith

  skips-false :
      (s : Scheduler P) (c : ℕ)
      → skips n s c ≡ false
      → ((slot_at s c).active ≡ true) × ((slot_at s c).detached ≡ false)
  skips-false s c h = ground arith

  -- What `schedule` returns: an active slot that is not detached, the first one from the current turn on.
  abbrev pub Scheduled : Scheduler P → Option (ℕ × Scheduler P) → Type 0
  Scheduled s r =
      (d : ℕ) × (d < n)
      × (r ≡ some ((s.m_current + d) % n, at_turn s (s.m_current + d + 1)))
      × ((slot_at s (s.m_current + d)).active ≡ true)
      × ((slot_at s (s.m_current + d)).detached ≡ false)
      × ((j : ℕ)
          → j < d
          → ((slot_at s (s.m_current + j)).active ≡ false)
            ⊎ ((slot_at s (s.m_current + j)).detached ≡ true))

  -- `schedule` ends within `n` rounds if any of the `n` slots is active and not detached and the turn
  -- counter does not overflow: it picks the first slot that is active and not detached from the current turn on, and the next
  -- turn begins behind it.
  pub schedule_lem :
      (s : Scheduler P)
      → s.m_current + n < 2 ^ 64
      → (i : ℕ) → i < n
      → (s.m_executions i).detached ≡ false
      → (s.m_executions i).active ≡ true
      → Scheduled s (schedule n n s)
  schedule_lem s small i h kept runs = elim (first_free n s) [
    | inl (d, lt, busy, free) ↦
        let (runs', kept') = skips-false s (s.m_current + d) free in
        (
          d,
          lt,
          schedule_first d n s (omega arith) lt busy free,
          runs',
          kept',
          λ j before. skips-true s (s.m_current + j) (busy j before),
        )
    | inr none_free ↦
        let (d, lt, e) = reaches n s.m_current i h in
        let skipped : skips n s (s.m_current + d) ≡ true = none_free d lt in
        let ready : skips n s (s.m_current + d) ≡ false =
          ap (λ x. (s.m_executions x).detached || not (s.m_executions x).active) e
          ∙ rw (kept, runs) refl in
        absurd cc
  ]
