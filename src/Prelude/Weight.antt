-- ===== src/Prelude/Weight.antt =====
-- What the first members of a family weigh together.
use Prim.Native.Nat.{ℕ, zero, suc, ◌+◌, ◌≤◌, ◌<◌}
use mathlib.Core.Path.{◌≡◌, refl, ap, subst}
use mathlib.Core.Logic.{◌≢◌}
use native.Mathlib.Decide.{ℕ_discrete}
use native.Mathlib.Omega.{arith}
use asco.Prelude.Family.{update, update_self, update_ne}

unfoldable pub weight {ℓ} : {A : Type ℓ} → (A → ℕ) → (ℕ → A) → ℕ → ℕ
weight of f zero = 0
weight of f (suc k) = of (f k) + weight of f k

-- Members that weigh nothing.
pub weightless {ℓ} :
    {A : Type ℓ} (of : A → ℕ) (f : ℕ → A) (k : ℕ) → ((j : ℕ) → of (f j) ≡ 0) → weight of f k ≡ 0
unfolding weight
weightless of f zero none = refl
weightless of f (suc k) none = omega (arith, none k, weightless of f k none)

-- A change outside of the first `k`.
weight-beyond {ℓ} :
    {A : Type ℓ} (of : A → ℕ) (f : ℕ → A) (j k : ℕ) (new : A)
    → k ≤ j
    → weight of (update f j new) k ≡ weight of f k
unfolding weight
weight-beyond of f j zero new out = refl
weight-beyond of f j (suc k) new out =
    let same : update f j new k ≡ f k = update_ne f j k new (λ e. omega (arith, e)) in
    omega (arith, ap of same, weight-beyond of f j k new (omega arith))

-- A change among the first `k`.
pub weight-within {ℓ} :
    {A : Type ℓ} (of : A → ℕ) (f : ℕ → A) (j k : ℕ) (new : A)
    → j < k
    → of (f j) + weight of (update f j new) k ≡ of new + weight of f k
unfolding weight
weight-within of f j zero new among = absurd (omega arith)
weight-within of f j (suc k) new among = elim (ℕ_discrete j k) [
  | yes newest ↦
      let changed : update f j new k ≡ new =
        subst (λ x. update f j new x ≡ new) newest (update_self f j new) in
      omega
        (arith, ap of changed, ap (λ x. of (f x)) newest, weight-beyond of f j k new (omega arith))
  | no older ↦
      omega (arith, ap of (update_ne f j k new older), weight-within of f j k new (omega arith))
]

-- Two changes among the first `k`.
pub weight-within_both {ℓ} :
    {A : Type ℓ} (of : A → ℕ) (f : ℕ → A) (i j k : ℕ) (new new' : A)
    → i < k
    → j < k
    → i ≢ j
    → of (f i) + of (f j) + weight of (update (update f i new) j new') k
      ≡ of new + of new' + weight of f k
weight-within_both of f i j k new new' hi hj apart = omega (
  arith,
  weight-within of f i k new hi,
  weight-within of (update f i new) j k new' hj,
  ap of (update_ne f i j new apart),
)

-- The lighter family.
pub weight_mono {ℓ} :
    {A : Type ℓ} (of by : A → ℕ) (f : ℕ → A) (k : ℕ)
    → ((j : ℕ) → of (f j) ≤ by (f j))
    → weight of f k ≤ weight by f k
unfolding weight
weight_mono of by f zero less = omega arith
weight_mono of by f (suc k) less = omega (arith, less k, weight_mono of by f k less)
