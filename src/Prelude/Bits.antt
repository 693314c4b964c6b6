-- ===== src/Prelude/Bits.antt =====
-- The binary digits of `|` and `^`.
use Prim.Native.Nat.{
  ℕ, zero, suc, ◌*◌, ◌+◌, ◌/◌, ◌%◌, ◌^◌, ◌≤◌, ◌<◌, min, max, bit_and, bit_or, bit_xor, digits,
  differ, bit_and-bitwise, bit_or-bitwise, bit_xor-bitwise,
}
use mathlib.Core.Path.{◌≡◌, refl, sym, ap, ◌∙◌}
use native.Mathlib.Nat.{pow-suc, mul_assoc, div-div-eq-div-mul}
use native.Mathlib.Omega.{arith}

-- `x | 1` is odd.
pub bit_or-one_odd : (a : ℕ) → bit_or a 1 % 2 ≡ 1
bit_or-one_odd zero = refl
bit_or-one_odd (suc a) =
    let above = digits (λ b. b) max a (suc a / 2) (1 / 2) in
    let odd : (above * 2 + max (suc a % 2) (1 % 2)) % 2 ≡ 1 = omega arith in simp bit_or-bitwise odd

-- An operation on digits `f`, where `z` says what is left of the second number when the first ends.
module _ (z : ℕ → ℕ) (f : ℕ → ℕ → ℕ) (ends : (b : ℕ) → z b ≡ z (b / 2) * 2 + f 0 (b % 2)) where
  abbrev along : ℕ → ℕ → ℕ → ℕ
  along = digits z f

  along_done : (n b : ℕ) → along n 0 b ≡ z b
  along_done zero b = refl
  along_done (suc n) b = refl

  -- Steps that are left over change nothing.
  along_enough : (n m a b : ℕ) → a ≤ n → a ≤ m → along n a b ≡ along m a b
  along_enough n m zero b hn hm = along_done n b ∙ sym (along_done m b)
  along_enough zero m (suc a) b hn hm = absurd (omega arith)
  along_enough (suc n) zero (suc a) b hn hm = absurd (omega arith)
  along_enough (suc n) (suc m) (suc a) b hn hm =
      ap (λ (t : ℕ). t * 2 + f (suc a % 2) (b % 2))
        (along_enough n m (suc a / 2) (b / 2) (omega arith) (omega arith))

  along_step : (a b : ℕ) → along a a b ≡ along (a / 2) (a / 2) (b / 2) * 2 + f (a % 2) (b % 2)
  along_step zero b = ends b
  along_step (suc a) b =
      ap (λ (t : ℕ). t * 2 + f (suc a % 2) (b % 2))
        (along_enough a (suc a / 2) (suc a / 2) (b / 2) (omega arith) (omega arith))

pub bit_and_step : (a b : ℕ) → bit_and a b ≡ bit_and (a / 2) (b / 2) * 2 + min (a % 2) (b % 2)
bit_and_step a b = omega (
  arith,
  bit_and-bitwise a b,
  bit_and-bitwise (a / 2) (b / 2),
  along_step (λ _. 0) min (λ b. omega arith) a b,
)

pub bit_or_step : (a b : ℕ) → bit_or a b ≡ bit_or (a / 2) (b / 2) * 2 + max (a % 2) (b % 2)
bit_or_step a b = omega (
  arith,
  bit_or-bitwise a b,
  bit_or-bitwise (a / 2) (b / 2),
  along_step (λ b. b) max (λ b. omega arith) a b,
)

pub bit_xor_step : (a b : ℕ) → bit_xor a b ≡ bit_xor (a / 2) (b / 2) * 2 + differ (a % 2) (b % 2)
bit_xor_step a b = omega (
  arith,
  bit_xor-bitwise a b,
  bit_xor-bitwise (a / 2) (b / 2),
  along_step (λ b. b) differ (λ b. omega arith) a b,
)

differ_digits :
    (x y : ℕ)
    → x < 2
    → y < 2
    → (differ x y < 2) × (differ (differ x y) y ≡ x) × (differ x (differ x y) ≡ y)
differ_digits zero zero hx hy = (omega arith, refl, refl)
differ_digits zero (suc zero) hx hy = (omega arith, refl, refl)
differ_digits (suc zero) zero hx hy = (omega arith, refl, refl)
differ_digits (suc zero) (suc zero) hx hy = (omega arith, refl, refl)
differ_digits zero (suc (suc y)) hx hy = absurd (omega arith)
differ_digits (suc zero) (suc (suc y)) hx hy = absurd (omega arith)
differ_digits (suc (suc x)) y hx hy = absurd (omega arith)

differ_zero : (x : ℕ) → differ x 0 ≡ x
differ_zero zero = refl
differ_zero (suc x) = refl

-- The digits of `a ^ b`.
module _ (a b : ℕ) where
  last :
      (differ (a % 2) (b % 2) < 2)
      × (differ (differ (a % 2) (b % 2)) (b % 2) ≡ a % 2)
      × (differ (a % 2) (differ (a % 2) (b % 2)) ≡ b % 2)
  last = differ_digits (a % 2) (b % 2) (omega arith) (omega arith)

  pub xor-half : bit_xor a b / 2 ≡ bit_xor (a / 2) (b / 2)
  xor-half = omega (arith, bit_xor_step a b, last.0)

  xor-last : bit_xor a b % 2 ≡ differ (a % 2) (b % 2)
  xor-last = omega (arith, bit_xor_step a b, last.0)

xor_cancel_fuel : (n a b : ℕ) → a ≤ n → b ≤ n → bit_xor (bit_xor a b) b ≡ a
xor_cancel_fuel zero zero zero ha hb = refl
xor_cancel_fuel zero zero (suc b) ha hb = absurd (omega arith)
xor_cancel_fuel zero (suc a) b ha hb = absurd (omega arith)
xor_cancel_fuel (suc n) a b ha hb = omega (
  arith,
  bit_xor_step (bit_xor a b) b,
  ap (λ (t : ℕ). bit_xor t (b / 2)) (xor-half a b),
  ap (λ (t : ℕ). differ t (b % 2)) (xor-last a b),
  (last a b).1,
  xor_cancel_fuel n (a / 2) (b / 2) (omega arith) (omega arith),
)

xor_cancel_fuel' : (n a b : ℕ) → a ≤ n → b ≤ n → bit_xor a (bit_xor a b) ≡ b
xor_cancel_fuel' zero zero zero ha hb = refl
xor_cancel_fuel' zero zero (suc b) ha hb = absurd (omega arith)
xor_cancel_fuel' zero (suc a) b ha hb = absurd (omega arith)
xor_cancel_fuel' (suc n) a b ha hb = omega (
  arith,
  bit_xor_step a (bit_xor a b),
  ap (λ (t : ℕ). bit_xor (a / 2) t) (xor-half a b),
  ap (λ (t : ℕ). differ (a % 2) t) (xor-last a b),
  (last a b).2,
  xor_cancel_fuel' n (a / 2) (b / 2) (omega arith) (omega arith),
)

pub xor_cancel : (a b : ℕ) → bit_xor (bit_xor a b) b ≡ a
xor_cancel a b = xor_cancel_fuel (a + b) a b (omega arith) (omega arith)

pub xor_cancel' : (a b : ℕ) → bit_xor a (bit_xor a b) ≡ b
xor_cancel' a b = xor_cancel_fuel' (a + b) a b (omega arith) (omega arith)

-- A number with at most `k` digits.
pub xor-lt : (k a b : ℕ) → a < 2 ^ k → b < 2 ^ k → bit_xor a b < 2 ^ k
xor-lt zero zero zero ha hb = omega arith
xor-lt zero zero (suc b) ha hb = absurd (omega arith)
xor-lt zero (suc a) b ha hb = absurd (omega arith)
xor-lt (suc k) a b ha hb = omega (
  arith,
  pow-suc 2 k,
  bit_xor_step a b,
  (last a b).0,
  xor-lt k (a / 2) (b / 2) (omega (arith, pow-suc 2 k)) (omega (arith, pow-suc 2 k)),
)

pub div-pow_suc : (a k : ℕ) → a / 2 ^ suc k ≡ a / 2 / 2 ^ k
div-pow_suc a k =
    ap (λ (t : ℕ). a / t) (omega (arith, pow-suc 2 k)) ∙ sym (div-div-eq-div-mul a 2 (2 ^ k))

pub xor-div : (k a b : ℕ) → bit_xor a b / 2 ^ k ≡ bit_xor (a / 2 ^ k) (b / 2 ^ k)
xor-div zero a b =
    let whole : (c : ℕ) → c / 2 ^ 0 ≡ c = λ c. omega arith in
    whole (bit_xor a b)
    ∙ ap (λ (t : ℕ). bit_xor t b) (sym (whole a))
    ∙ ap (λ (t : ℕ). bit_xor (a / 2 ^ 0) t) (sym (whole b))
xor-div (suc k) a b =
    div-pow_suc (bit_xor a b) k
    ∙ ap (λ (t : ℕ). t / 2 ^ k) (xor-half a b)
    ∙ xor-div k (a / 2) (b / 2)
    ∙ ap (λ (t : ℕ). bit_xor t (b / 2 / 2 ^ k)) (sym (div-pow_suc a k))
    ∙ ap (λ (t : ℕ). bit_xor (a / 2 ^ suc k) t) (sym (div-pow_suc b k))

pub xor_zero : (a : ℕ) → bit_xor a 0 ≡ a
xor_zero a =
    let none : bit_xor a a ≡ 0 =
      ap (λ (t : ℕ). bit_xor t a) (sym (bit_xor-bitwise 0 a)) ∙ xor_cancel 0 a in
    ap (λ (t : ℕ). bit_xor a t) (sym none) ∙ xor_cancel' a a

-- Digits above those of `r` are added.
pub or-add : (k r a : ℕ) → r < 2 ^ k → bit_or r (a * 2 ^ k) ≡ r + a * 2 ^ k
or-add zero zero a h = omega (arith, bit_or-bitwise 0 (a * 2 ^ 0))
or-add zero (suc r) a h = absurd (omega arith)
or-add (suc k) r a h =
    let moved : a * 2 ^ suc k ≡ a * 2 ^ k * 2 =
      ap (λ (t : ℕ). a * t) (pow-suc 2 k) ∙ sym (mul_assoc a (2 ^ k) 2) in
    let half : a * 2 ^ suc k / 2 ≡ a * 2 ^ k = omega (arith, moved) in
    omega (
      arith,
      moved,
      bit_or_step r (a * 2 ^ suc k),
      ap (λ (t : ℕ). bit_or (r / 2) t) half,
      or-add k (r / 2) a (omega (arith, pow-suc 2 k)),
    )
