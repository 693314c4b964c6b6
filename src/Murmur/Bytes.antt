-- ===== src/Murmur/Bytes.antt =====
-- `concat64le` reads a number in base 256, its lowest digit first.
use asco.Prelude.{
  ℕ, suc, ◌+◌, ◌*◌, ◌^◌, ◌≤◌, ◌<◌, ◌≡◌, refl, sym, ap, ◌∙◌, arith, bit_or, List, [], ◌∷◌, length,
}
use native.Mathlib.Nat.{mul-le-mul_right, pow-le-pow_right}
use native.Mathlib.Numerals.{towards_suc}
use asco.Prelude.Bits.{or-add}
use asco.Murmur.{u64, concat_from, concat64le}
use asco.Murmur.Words.{word}

-- The number that bytes stand for.
abbrev pub little_endian : List ℕ → ℕ
little_endian [] = 0
little_endian (x ∷ xs) = x + 256 * little_endian xs

abbrev pub Bytes : List ℕ → Type 0
Bytes [] = Unit
Bytes (x ∷ xs) = (x < 256) × Bytes xs

eight_more : (n : ℕ) → 2 ^ (n + 8) ≡ 2 ^ n * 256
eight_more n = simp towards_suc (omega arith)

pow_byte : (i : ℕ) → 2 ^ (suc i * 8) ≡ 2 ^ (i * 8) * 256
pow_byte i =
    let more : suc i * 8 ≡ i * 8 + 8 = omega arith in
    ap (λ (t : ℕ). 2 ^ t) more ∙ eight_more (i * 8)

-- One more byte above `r`.
byte_above :
    (x r i : ℕ)
    → x < 256
    → r < 2 ^ (i * 8)
    → i < 8
    → (bit_or r (u64 (x * 2 ^ (i * 8))) ≡ r + x * 2 ^ (i * 8))
      × (r + x * 2 ^ (i * 8) < 2 ^ (suc i * 8))
byte_above x r i hx h short =
    let most : x * 2 ^ (i * 8) ≤ 255 * 2 ^ (i * 8) =
      mul-le-mul_right {m = x} {n = 255} (2 ^ (i * 8)) (omega arith) in
    let fits : 2 ^ (suc i * 8) ≤ 2 ^ 64 =
      pow-le-pow_right {n = 2} (omega arith) {i = suc i * 8} {j = 64} (omega arith) in
    let whole : u64 (x * 2 ^ (i * 8)) ≡ x * 2 ^ (i * 8) = omega (arith, most, fits, pow_byte i) in
    (ap (λ (t : ℕ). bit_or r t) whole ∙ or-add (i * 8) r x h, omega (arith, most, pow_byte i))

shifted : (x l p : ℕ) → (x + 256 * l) * p ≡ x * p + l * (p * 256)
shifted x l p = grind arith

concat_from_lem :
    (xs : List ℕ) (r i : ℕ)
    → Bytes xs
    → r < 2 ^ (i * 8)
    → i + length xs ≤ 8
    → concat_from r i xs ≡ r + little_endian xs * 2 ^ (i * 8)
unfolding concat_from
concat_from_lem [] r i b h short = omega arith
concat_from_lem (x ∷ xs) r i b h short =
    let above : (bit_or r (u64 (x * 2 ^ (i * 8))) ≡ r + x * 2 ^ (i * 8))
        × (r + x * 2 ^ (i * 8) < 2 ^ (suc i * 8)) =
      byte_above x r i b.0 h (omega arith) in
    ap (λ (t : ℕ). concat_from t (suc i) xs) above.0
    ∙ concat_from_lem xs (r + x * 2 ^ (i * 8)) (suc i) b.1 above.1 (omega arith)
    ∙ omega (
      arith,
      ap (λ (t : ℕ). little_endian xs * t) (pow_byte i),
      shifted x (little_endian xs) (2 ^ (i * 8)),
    )

little_endian-lt : (xs : List ℕ) → Bytes xs → little_endian xs < 2 ^ (length xs * 8)
little_endian-lt [] b = omega arith
little_endian-lt (x ∷ xs) b = omega (arith, b.0, little_endian-lt xs b.1, pow_byte (length xs))

-- `concat64le` of at most eight bytes is the number whose digits in base 256 they are, the first byte
-- the lowest, and it fits a word.
pub concat64le_lem :
    (xs : List ℕ)
    → Bytes xs
    → length xs ≤ 8
    → (concat64le xs ≡ little_endian xs) × (concat64le xs < word)
concat64le_lem xs b short =
    let same : concat64le xs ≡ little_endian xs =
      concat_from_lem xs 0 0 b (omega arith) (omega (arith, short)) ∙ omega arith in
    let fits : 2 ^ (length xs * 8) ≤ 2 ^ 64 =
      pow-le-pow_right {n = 2} (omega arith) {i = length xs * 8} {j = 64} (omega arith) in
    (same, omega (arith, same, fits, little_endian-lt xs b))

-- Bytes of the same number are the same.
little_endian_injective :
    (xs ys : List ℕ)
    → Bytes xs
    → Bytes ys
    → length xs ≡ length ys
    → little_endian xs ≡ little_endian ys
    → xs ≡ ys
little_endian_injective [] [] bx bys n e = refl
little_endian_injective [] (y ∷ ys) bx bys n e = absurd (omega (arith, n))
little_endian_injective (x ∷ xs) [] bx bys n e = absurd (omega (arith, n))
little_endian_injective (x ∷ xs) (y ∷ ys) bx bys n e =
    let first : x ≡ y = omega (arith, e, bx.0, bys.0) in
    let others : little_endian xs ≡ little_endian ys = omega (arith, e, bx.0, bys.0) in
    ap (λ t. t ∷ xs) first
    ∙ ap (λ t. y ∷ t) (little_endian_injective xs ys bx.1 bys.1 (omega (arith, n)) others)

pub concat64le_injective :
    (xs ys : List ℕ)
    → Bytes xs
    → Bytes ys
    → length xs ≤ 8
    → length xs ≡ length ys
    → concat64le xs ≡ concat64le ys
    → xs ≡ ys
concat64le_injective xs ys bx bys short n e =
    little_endian_injective xs ys bx bys n
      (sym (concat64le_lem xs bx short).0 ∙ e ∙ (concat64le_lem ys bys (omega (arith, n))).0)
