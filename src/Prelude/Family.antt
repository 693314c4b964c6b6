-- ===== src/Prelude/Family.antt =====
-- Arrays and families indexed by a number: update at one index, and how many of the first `n` pass
-- a test.
use Prim.Native.Nat.{ℕ, zero, suc, ◌+◌, ◌≤◌, ◌<◌}
use mathlib.Core.Path.{◌≡◌, refl, ap, fun_ext, subst, sym}
use mathlib.Core.Logic.{◌≢◌, ite}
use mathlib.Core.Bool.{Bool, true, false}
use native.Mathlib.Decide.{dec_lt, ℕ_discrete}
use native.Mathlib.Omega.{arith}

abbrev pub update {ℓ} : {A : Type ℓ} → (ℕ → A) → ℕ → A → ℕ → A
update f i a j = ite (ℕ_discrete i j) a (f j)

pub update_self {ℓ} : {A : Type ℓ} (f : ℕ → A) (i : ℕ) (a : A) → update f i a i ≡ a
update_self f i a = ground arith

pub update_ne {ℓ} : {A : Type ℓ} (f : ℕ → A) (i j : ℕ) (a : A) → i ≢ j → update f i a j ≡ f j
update_ne f i j a ne = ground arith

pub update_twice {ℓ} :
    {A : Type ℓ} (f : ℕ → A) (i : ℕ) (a b : A) → update (update f i a) i b ≡ update f i b
update_twice f i a b = fun_ext (λ j. ground arith)

-- What holds of every value, and of the new one, holds after the update.
pub update-all {ℓ κ} :
    {A : Type ℓ} (P : A → Type κ) (f : ℕ → A) (i : ℕ) (a : A)
    → ((j : ℕ) → P (f j))
    → P a
    → (j : ℕ) → P (update f i a j)
update-all P f i a h ha j = elim (ℕ_discrete i j) [
  | yes same ↦ subst (λ x. P (update f i a x)) same (subst P (sym (update_self f i a)) ha)
  | no other ↦ subst P (sym (update_ne f i j a other)) (h j)
]

abbrev pub to_nat : Bool → ℕ
to_nat true = 1
to_nat false = 0

module _ {ℓ} {A : Type ℓ} (w : A → Bool) where
  unfoldable pub count : ℕ → (ℕ → A) → ℕ
  count zero f = 0
  count (suc n) f = count n f + to_nat (w (f n))

  pub count_zero : (f : ℕ → A) → count 0 f ≡ 0
  unfolding count
  count_zero f = refl

  pub count-suc : (n : ℕ) (f : ℕ → A) → count (suc n) f ≡ count n f + to_nat (w (f n))
  unfolding count
  count-suc n f = refl

  pub count-le : (n : ℕ) (f : ℕ → A) → count n f ≤ n
  unfolding count
  count-le zero f = omega arith
  count-le (suc n) f = ground (arith, count-le n f)

  pub count-update_above :
      (n : ℕ) (f : ℕ → A) (i : ℕ) (a : A) → n ≤ i → count n (update f i a) ≡ count n f
  unfolding count
  count-update_above zero f i a h = refl
  count-update_above (suc n) f i a h = ground (arith, count-update_above n f i a)

  -- An update moves the count by what the old and the new value weigh.
  pub count-update :
      (n : ℕ) (f : ℕ → A) (i : ℕ) (a : A)
      → i < n
      → count n (update f i a) + to_nat (w (f i)) ≡ count n f + to_nat (w a)
  unfolding count
  count-update zero f i a h = absurd (omega arith)
  count-update (suc n) f i a h = elim (dec_lt i n) [
    | yes below ↦ ground (arith, count-update n f i a below)
    | no last ↦ ground (arith, count-update_above n f i a)
  ]

  pub count-zero : (n : ℕ) (f : ℕ → A) → ((i : ℕ) → w (f i) ≡ false) → count n f ≡ 0
  unfolding count
  count-zero zero f h = refl
  count-zero (suc n) f h = ground (arith, count-zero n f h, h n)

  pub count-pos : (n : ℕ) (f : ℕ → A) (i : ℕ) → i < n → w (f i) ≡ true → 0 < count n f
  unfolding count
  count-pos zero f i h e = absurd (omega arith)
  count-pos (suc n) f i h e = elim (dec_lt i n) [
    | yes below ↦ omega (arith, count-pos n f i below e)
    | no last ↦ ground arith
  ]

  pub count-two :
      (n : ℕ) (f : ℕ → A) (i j : ℕ)
      → i < n
      → j < n
      → i ≢ j
      → w (f i) ≡ true
      → w (f j) ≡ true
      → 2 ≤ count n f
  unfolding count
  count-two zero f i j hi hj ne ei ej = absurd (omega arith)
  count-two (suc n) f i j hi hj ne ei ej = elim (dec_lt i n) [
    | yes below ↦ elim (dec_lt j n) [
      | yes below' ↦ omega (arith, count-two n f i j below below' ne ei ej)
      | no last ↦
          let same : j ≡ n = omega arith in
          ground (arith, count-pos n f i below ei, ap (λ k. w (f k)) same)
    ]
    | no last ↦
        let same : i ≡ n = omega arith in
        ground (arith, count-pos n f j (omega arith) ej, ap (λ k. w (f k)) same)
  ]

-- What one index, and what two, add to the count.
pub count-at {ℓ} :
    {A : Type ℓ} (w : A → Bool) (n : ℕ) (f : ℕ → A) (i : ℕ) → i < n → to_nat (w (f i)) ≤ count w n f
count-at w n f i h =
    elim (w (f i)) as (λ b. w (f i) ≡ b → to_nat b ≤ count w n f) [
      | true ↦ λ e. count-pos w n f i h e
      | false ↦ λ e. omega arith
    ]
      refl

pub count-pair {ℓ} :
    {A : Type ℓ} (w : A → Bool) (n : ℕ) (f : ℕ → A) (i j : ℕ)
    → i < n
    → j < n
    → i ≢ j
    → to_nat (w (f i)) + to_nat (w (f j)) ≤ count w n f
count-pair w n f i j hi hj ne =
    ground (arith, count-two w n f i j hi hj ne, count-at w n f i hi, count-at w n f j hj)

-- Of two tests, the one that passes less counts less.
pub count_mono {ℓ} :
    {A : Type ℓ} (w v : A → Bool)
    → ((a : A) → to_nat (w a) ≤ to_nat (v a))
    → (n : ℕ) (f : ℕ → A) → count w n f ≤ count v n f
unfolding count
count_mono w v h zero f = omega arith
count_mono w v h (suc n) f = omega (arith, count_mono w v h n f, h (f n))

-- Two tests that never both pass count together no more than a test that passes with either.
pub count-sum {ℓ} :
    {A : Type ℓ} (u v w : A → Bool)
    → ((a : A) → to_nat (u a) + to_nat (v a) ≤ to_nat (w a))
    → (n : ℕ) (f : ℕ → A) → count u n f + count v n f ≤ count w n f
unfolding count
count-sum u v w h zero f = omega arith
count-sum u v w h (suc n) f = omega (arith, count-sum u v w h n f, h (f n))
