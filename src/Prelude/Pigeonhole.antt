-- ===== src/Prelude/Pigeonhole.antt =====
-- Distinct indices at which a test passes are at most as many as the test counts.
use Prim.Native.Nat.{ℕ, zero, suc, ◌≤◌, ◌<◌}
use mathlib.Core.Path.{◌≡◌, refl, sym, subst}
use mathlib.Core.Logic.{◌≢◌, ◌⊎◌, inl, inr}
use native.Mathlib.Decide.{ℕ_discrete}
use mathlib.Core.Bool.{Bool, true, false}
use native.Mathlib.Omega.{arith}
use asco.Prelude.Family.{update, update_ne, count, count-le, count-update}

pub pigeonhole {ℓ} :
    {A : Type ℓ} (w : A → Bool) (off : A)
    → w off ≡ false
    → (n m : ℕ) (f : ℕ → A) (p : ℕ → ℕ) → ((i : ℕ) → i < m → p i < n)
    → ((i j : ℕ) → i < m → j < m → p i ≡ p j → i ≡ j)
    → ((i : ℕ) → i < m → w (f (p i)) ≡ true)
    → m ≤ count w n f
pigeonhole w off dark n zero f p fits inj lit = omega arith
pigeonhole w off dark n (suc m) f p fits inj lit = ground (
  arith,
  pigeonhole w off dark n m (update f (p m) off) p (λ i h. fits i (omega arith))
      (λ i j hi hj. inj i j (omega arith) (omega arith)) still,
  count-update w n f (p m) off (fits m (omega arith)),
  lit m (omega arith),
  dark,
)
  where
    still : (i : ℕ) → i < m → w (update f (p m) off (p i)) ≡ true
    still i h =
        rw
          (update_ne f (p m) (p i) off
            (λ same. absurd (omega (arith, inj m i (omega arith) (omega arith) same))))
          (lit i (omega arith))

-- The first of `n` indices that `p` sends to `x`, or the fact that there is none.
first_hit : (p : ℕ → ℕ) (x n : ℕ) → ((i : ℕ) × (i < n) × (p i ≡ x)) ⊎ ((i : ℕ) → i < n → p i ≢ x)
first_hit p x zero = inr (λ i h. absurd (omega arith))
first_hit p x (suc n) = elim (ℕ_discrete (p n) x) [
  | yes hit ↦ inl (n, omega arith, hit)
  | no miss ↦ elim (first_hit p x n) [
    | inl (i, h, e) ↦ inl (i, omega arith, e)
    | inr never ↦ inr (λ i h. elim (ℕ_discrete i n) [
      | yes last ↦ subst (λ z. p z ≢ x) (sym last) miss
      | no before ↦ never i (omega arith)
    ])
  ]
]

-- Among `n` numbers, `n` distinct ones leave out none.
pub covers :
    (n : ℕ) (p : ℕ → ℕ)
    → ((i : ℕ) → i < n → p i < n)
    → ((i j : ℕ) → i < n → j < n → p i ≡ p j → i ≡ j)
    → (x : ℕ) → x < n
    → (i : ℕ) × (i < n) × (p i ≡ x)
covers n p fits inj x h = elim (first_hit p x n) [
  | inl found ↦ found
  | inr never ↦ absurd (
      omega (
        arith,
        pigeonhole (λ b. b) false refl n n seen p fits inj
            (λ i lt. update_ne (λ _. true) x (p i) false (λ e. never i lt (sym e))),
        count-update (λ b. b) n (λ _. true) x false h,
        count-le (λ b. b) n (λ _. true),
      ))
]
  where
    seen : ℕ → Bool
    seen = update (λ _. true) x false
