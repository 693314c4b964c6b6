-- ===== src/HashMap/Probe.antt =====
-- Double hashing with an odd step over a power of two visits every bucket.
use native.Mathlib.Nat.{
  pow-suc, mod-lt, mul-sub, div-add-mod, one-le-pow, mod-mod_of_dvd, add-mod-mod, add-suc, add-zero,
  pow-zero, mul-one, mul-zero, mul-suc, pow-le-pow_right, add-mul, mul_assoc, mul_comm,
}
use asco.Prelude.Pigeonhole.{covers}
use asco.Prelude.{
  ℕ, zero, suc, ◌+◌, ◌-◌, ◌*◌, ◌/◌, ◌%◌, ◌^◌, ◌≤◌, ◌<◌, ◌≡◌, refl, ap, arith, dec_lt, ◌∙◌, sym,
}
use asco.Prelude.Bits.{bit_or-one_odd}
use asco.Murmur.{u64}
use asco.HashMap.Defs.{HashKey, hash1, hash2, probe}

expand : (h c s : ℕ) → (2 * h + c) * s ≡ 2 * (h * s) + c * s
expand h c s = rw (add-mul, mul_assoc)

-- A product with an odd factor is even only if the other factor is.
even_of_odd_mul :
    (h c s x : ℕ) → c < 2 → s % 2 ≡ 1 → (2 * h + c) * s ≡ 2 * x → (c ≡ 0) × (h * s ≡ x)
even_of_odd_mul h zero s x lt odd e = (refl, omega (arith, expand h 0 s))
even_of_odd_mul h (suc zero) s x lt odd e = absurd (omega (arith, expand h 1 s))
even_of_odd_mul h (suc (suc c)) s x lt odd e = absurd (omega arith)

-- A power of two that divides a multiple of `d` by an odd number divides `d`.
odd_cancel : (e d s q : ℕ) → s % 2 ≡ 1 → d * s ≡ 2 ^ e * q → (r : ℕ) × (d ≡ 2 ^ e * r)
odd_cancel zero d s q odd h = (d, omega arith)
odd_cancel (suc e) d s q odd h =
    let (r, same) = odd_cancel e (d / 2) s q odd halves.1 in
    (r, omega (arith, double r, same, halves.0))
  where
    double : (r : ℕ) → 2 ^ suc e * r ≡ 2 * (2 ^ e * r)
    double r = rw (pow-suc 2 e, mul_comm (2 ^ e) 2, mul_assoc)

    split : d ≡ 2 * (d / 2) + d % 2
    split = omega arith

    halves : (d % 2 ≡ 0) × (d / 2 * s ≡ 2 ^ e * q)
    halves =
        even_of_odd_mul (d / 2) (d % 2) s (2 ^ e * q) (omega arith) odd
          (ap (λ (t : ℕ). t * s) (sym split) ∙ h ∙ double q)

-- Equal remainders differ by a multiple.
mod_eq_diff : (m x d : ℕ) → 0 < m → (x + d) % m ≡ x % m → d ≡ m * ((x + d) / m - x / m)
mod_eq_diff m x d pos h =
    omega (arith, mul-sub m ((x + d) / m) (x / m), div-add-mod x m, div-add-mod (x + d) m)

pub pow-pos : (e : ℕ) → 0 < 2 ^ e
pow-pos e = one-le-pow e 2 (omega arith)

-- A multiple of `m` below `m` is 0.
multiple_below : (m r d : ℕ) → d ≡ m * r → d < m → d ≡ 0
multiple_below m zero d h lt = omega (arith, mul-zero m)
multiple_below m (suc r) d h lt = absurd (omega (arith, mul-suc m r))

-- The probes of one key at different rounds hit different buckets, in a window of `2 ^ e` buckets.
walk_injective_le :
    (e b s i j : ℕ)
    → s % 2 ≡ 1
    → i ≤ j
    → j < 2 ^ e
    → (b + i * s) % 2 ^ e ≡ (b + j * s) % 2 ^ e
    → i ≡ j
walk_injective_le e b s i j odd le lt h =
    let (r, same) = odd_cancel e (j - i) s q odd spread in
    omega (arith, multiple_below (2 ^ e) r (j - i) same (omega arith))
  where
    apart : b + i * s + (j - i) * s ≡ b + j * s
    apart = omega (arith, add-mul i (j - i) s, ap (λ (t : ℕ). t * s) (regroup))
      where
        regroup : i + (j - i) ≡ j
        regroup = omega arith

    q : ℕ
    q = (b + i * s + (j - i) * s) / 2 ^ e - (b + i * s) / 2 ^ e

    spread : (j - i) * s ≡ 2 ^ e * q
    spread =
        mod_eq_diff (2 ^ e) (b + i * s) ((j - i) * s) (pow-pos e)
          (ap (λ (t : ℕ). t % 2 ^ e) apart ∙ sym h)

walk_injective :
    (e b s i j : ℕ)
    → s % 2 ≡ 1
    → i < 2 ^ e
    → j < 2 ^ e
    → (b + i * s) % 2 ^ e ≡ (b + j * s) % 2 ^ e
    → i ≡ j
walk_injective e b s i j odd hi hj h = elim (dec_lt i j) [
  | yes lt ↦ walk_injective_le e b s i j odd (omega arith) hj h
  | no ge ↦ sym (walk_injective_le e b s j i odd (omega arith) hi (sym h))
]

pow-add : (e f : ℕ) → 2 ^ (e + f) ≡ 2 ^ e * 2 ^ f
pow-add e zero = simp (add-zero, pow-zero, mul-one)
pow-add e (suc f) = rw (add-suc, pow-suc, pow-suc 2 f, pow-add e f) (mul_assoc (2 ^ e) (2 ^ f) 2)

pub pow-le : (e f : ℕ) → e ≤ f → 2 ^ e ≤ 2 ^ f
pow-le e f h = pow-le-pow_right (omega arith) h

-- The wrap of the sum at 2 ^ 64 does not change the index.
mod_u64 : (e x : ℕ) → e ≤ 64 → u64 x % 2 ^ e ≡ x % 2 ^ e
mod_u64 e x h =
    mod-mod_of_dvd (2 ^ e) x ∣ (2 ^ (64 - e), ap (λ (t : ℕ). 2 ^ t) whole ∙ pow-add e (64 - e)) ∣₁
  where
    whole : 64 ≡ e + (64 - e)
    whole = omega arith

pub probe-lt {ℓ} :
    {K : Type ℓ} ⦃key : HashKey K⦄ (size : ℕ) (k : K) (i : ℕ) → 0 < size → probe size k i < size
unfolding probe
probe-lt size k i pos = mod-lt _ pos

module _ {ℓ} {K : Type ℓ} ⦃key : HashKey K⦄ (e : ℕ) (k : K) where
  step_odd : hash2 k % 2 ^ suc e % 2 ≡ 1
  unfolding hash2
  step_odd =
      mod-mod_of_dvd 2 (hash2 k) ∣ (2 ^ e, pow-suc 2 e ∙ mul_comm (2 ^ e) 2) ∣₁ ∙ bit_or-one_odd _

  probe_plain :
      (i : ℕ)
      → e < 64
      → probe (2 ^ suc e) k i ≡ (hash1 k % 2 ^ suc e + i * (hash2 k % 2 ^ suc e)) % 2 ^ suc e
  unfolding probe
  probe_plain i h =
      mod_u64 (suc e) (first + u64 (i * step)) h
      ∙ sym (add-mod-mod first (u64 (i * step)) m)
      ∙ ap (λ (t : ℕ). (first + t) % m) (mod_u64 (suc e) (i * step) h)
      ∙ add-mod-mod first (i * step) m
    where
      m : ℕ
      m = 2 ^ suc e

      first : ℕ
      first = hash1 k % m

      step : ℕ
      step = hash2 k % m

  -- In a table of `2 ^ suc e` buckets, as many probes as there are buckets visit each bucket once.
  pub probe_injective :
      e < 64
      → (i j : ℕ) → i < 2 ^ suc e
      → j < 2 ^ suc e
      → probe (2 ^ suc e) k i ≡ probe (2 ^ suc e) k j
      → i ≡ j
  probe_injective h i j hi hj same =
      walk_injective (suc e) _ _ i j step_odd hi hj (sym (probe_plain i h) ∙ same ∙ probe_plain j h)

  -- In a table of `2 ^ suc e` buckets, with `e` below 64, as many probes for a key as there are
  -- buckets visit every bucket.
  pub probe_covers :
      e < 64 → (x : ℕ) → x < 2 ^ suc e → (i : ℕ) × (i < 2 ^ suc e) × (probe (2 ^ suc e) k i ≡ x)
  probe_covers h x =
      covers (2 ^ suc e) (probe (2 ^ suc e) k) (λ i _. probe-lt (2 ^ suc e) k i (pow-pos (suc e)))
        (probe_injective h) x
