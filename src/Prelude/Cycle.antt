-- ===== src/Prelude/Cycle.antt =====
-- Indices that go round.
use native.Mathlib.Nat.{mod-eq_of_lt, add-mod_right}
use Prim.Native.Nat.{ℕ, ◌+◌, ◌-◌, ◌%◌, ◌≤◌, ◌<◌}
use mathlib.Core.Path.{◌≡◌, ap}
use mathlib.Core.Logic.{◌⊎◌, inl, inr}
use native.Mathlib.Decide.{dec_lt}
use native.Mathlib.Omega.{arith}

wrapped : (x n : ℕ) → x < n + n → n ≤ x → x % n + n ≡ x
wrapped x n h ge =
    let split : x ≡ (x - n) + n = omega arith in
    let back : (x - n) % n ≡ x - n = mod-eq_of_lt (omega arith) in
    omega (arith, ap (λ (z : ℕ). z % n) split, add-mod_right (x - n) n, back)

-- Past the end an index starts again.
pub wrap : (x n : ℕ) → x < n + n → ((x < n) × (x % n ≡ x)) ⊎ ((n ≤ x) × (x % n + n ≡ x))
wrap x n h = elim (dec_lt x n) [
  | yes lt ↦ inl (lt, mod-eq_of_lt lt)
  | no ge ↦ let le : n ≤ x = omega arith in inr (le, wrapped x n h le)
]

-- Within one round no place comes twice.
pub apart :
    (size head i j : ℕ)
    → head < size
    → i < size
    → j < size
    → (head + i) % size ≡ (head + j) % size
    → i ≡ j
apart size head i j h hi hj e = elim (wrap (head + i) size (omega arith)) [
  | inl (_, a) ↦ elim (wrap (head + j) size (omega arith)) [
    | inl (_, b) ↦ omega arith
    | inr (_, b) ↦ omega arith
  ]
  | inr (_, a) ↦ elim (wrap (head + j) size (omega arith)) [
    | inl (_, b) ↦ omega arith
    | inr (_, b) ↦ omega arith
  ]
]
