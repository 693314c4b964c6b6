-- ===== src/Prelude/Digits.antt =====
-- One binary digit of a number, and what the bit operations do to it.
use Prim.Native.Nat.{ℕ, zero, suc, ◌*◌, ◌-◌, ◌/◌, ◌%◌, ◌^◌, ◌≤◌, ◌<◌, min, max, bit_and, bit_or}
use mathlib.Core.Path.{◌≡◌, refl, sym, ap, ◌∙◌}
use mathlib.Core.Logic.{◌≢◌}
use native.Mathlib.Nat.{pow-suc, mul_assoc}
use native.Mathlib.Omega.{arith}
use asco.Prelude.Bits.{bit_and_step, bit_or_step, div-pow_suc}

-- The digit that counts `2 ^ d`.
abbrev pub digit : ℕ → ℕ → ℕ
digit d m = m / 2 ^ d % 2

pub digit-suc : (d m : ℕ) → digit (suc d) m ≡ digit d (m / 2)
digit-suc d m = ap (λ (t : ℕ). t % 2) (div-pow_suc m d)

pub digit-bit_or : (d a b : ℕ) → digit d (bit_or a b) ≡ max (digit d a) (digit d b)
digit-bit_or zero a b = omega (arith, bit_or_step a b)
digit-bit_or (suc d) a b =
    let half : bit_or a b / 2 ≡ bit_or (a / 2) (b / 2) = omega (arith, bit_or_step a b) in
    omega (
      arith,
      digit-suc d (bit_or a b),
      digit-suc d a,
      digit-suc d b,
      ap (digit d) half,
      digit-bit_or d (a / 2) (b / 2),
    )

pub digit-bit_and : (d a b : ℕ) → digit d (bit_and a b) ≡ min (digit d a) (digit d b)
digit-bit_and zero a b = omega (arith, bit_and_step a b)
digit-bit_and (suc d) a b =
    let half : bit_and a b / 2 ≡ bit_and (a / 2) (b / 2) = omega (arith, bit_and_step a b) in
    omega (
      arith,
      digit-suc d (bit_and a b),
      digit-suc d a,
      digit-suc d b,
      ap (digit d) half,
      digit-bit_and d (a / 2) (b / 2),
    )

half-pow : (d : ℕ) → 2 ^ suc d / 2 ≡ 2 ^ d
half-pow d = omega (arith, pow-suc 2 d)

-- The digits of a power of two.
pub digit-pow_self : (d : ℕ) → digit d (2 ^ d) ≡ 1
digit-pow_self zero = refl
digit-pow_self (suc d) = digit-suc d (2 ^ suc d) ∙ ap (digit d) (half-pow d) ∙ digit-pow_self d

pub digit-zero : (d : ℕ) → digit d 0 ≡ 0
digit-zero zero = refl
digit-zero (suc d) = digit-suc d 0 ∙ digit-zero d

pub digit-pow_ne : (d e : ℕ) → d ≢ e → digit d (2 ^ e) ≡ 0
digit-pow_ne zero zero ne = absurd (ne refl)
digit-pow_ne zero (suc e) ne = omega (arith, pow-suc 2 e)
digit-pow_ne (suc d) zero ne = digit-suc d 1 ∙ digit-zero d
digit-pow_ne (suc d) (suc e) ne =
    digit-suc d (2 ^ suc e)
    ∙ ap (digit d) (half-pow e)
    ∙ digit-pow_ne d e (λ same. ne (ap suc same))

-- The digits of the complement among `k`.
pub digit-complement : (k d b : ℕ) → d < k → b < 2 ^ k → digit d (2 ^ k - 1 - b) ≡ 1 - digit d b
digit-complement zero d b h fits = absurd (omega arith)
digit-complement (suc k) zero b h fits = omega (arith, pow-suc 2 k)
digit-complement (suc k) (suc d) b h fits =
    let half : (2 ^ suc k - 1 - b) / 2 ≡ 2 ^ k - 1 - b / 2 = omega (arith, pow-suc 2 k) in
    omega (
      arith,
      digit-suc d (2 ^ suc k - 1 - b),
      digit-suc d b,
      ap (digit d) half,
      digit-complement k d (b / 2) (omega arith) (omega (arith, pow-suc 2 k)),
    )

bit_and-zero_fuel : (n a : ℕ) → a ≤ n → bit_and a 0 ≡ 0
bit_and-zero_fuel zero zero h = refl
bit_and-zero_fuel zero (suc a) h = absurd (omega arith)
bit_and-zero_fuel (suc n) a h =
    omega (arith, bit_and_step a 0, bit_and-zero_fuel n (a / 2) (omega arith))

-- `&` with a power of two leaves one digit.
pub bit_and-pow : (d a : ℕ) → bit_and a (2 ^ d) ≡ digit d a * 2 ^ d
bit_and-pow zero a =
    omega (arith, bit_and_step a 1, bit_and-zero_fuel (a / 2) (a / 2) (omega arith))
bit_and-pow (suc d) a =
    let below : bit_and a (2 ^ suc d) ≡ bit_and (a / 2) (2 ^ d) * 2 = omega (
      arith,
      bit_and_step a (2 ^ suc d),
      ap (λ (t : ℕ). bit_and (a / 2) t) (half-pow d),
      pow-suc 2 d,
    ) in
    below
    ∙ ap (λ (t : ℕ). t * 2) (bit_and-pow d (a / 2))
    ∙ mul_assoc (digit d (a / 2)) (2 ^ d) 2
    ∙ ap (λ (t : ℕ). digit d (a / 2) * t) (sym (pow-suc 2 d))
    ∙ ap (λ (t : ℕ). t * 2 ^ suc d) (sym (digit-suc d a))
