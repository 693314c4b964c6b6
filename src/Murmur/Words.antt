-- ===== src/Murmur/Words.antt =====
-- Operations on words that lose nothing.
use asco.Prelude.{ℕ, ◌+◌, ◌*◌, ◌/◌, ◌^◌, ◌<◌, ◌≡◌, sym, ap, ◌∙◌, arith, bit_xor}
use asco.Prelude.Bits.{xor-lt, xor-div, xor_zero, xor_cancel, xor_cancel'}
use asco.Murmur.{u64, xorshift, mix64, rotl, c1, c2, scramble1, scramble2, HashVal, add_both}

abbrev pub word : ℕ
word = 2 ^ 64

xorshift-lt : (x : ℕ) → x < word → xorshift x < word
unfolding xorshift
xorshift-lt x h = xor-lt 64 x (x / 2 ^ 33) h (omega arith)

xorshift_twice : (x : ℕ) → x < word → xorshift (xorshift x) ≡ x
unfolding xorshift
xorshift_twice x h =
    let above : x / 2 ^ 33 / 2 ^ 33 ≡ 0 = omega arith in
    let high : bit_xor x (x / 2 ^ 33) / 2 ^ 33 ≡ x / 2 ^ 33 =
      xor-div 33 x (x / 2 ^ 33)
      ∙ ap (λ (t : ℕ). bit_xor (x / 2 ^ 33) t) above
      ∙ xor_zero (x / 2 ^ 33) in
    ap (λ (t : ℕ). bit_xor (bit_xor x (x / 2 ^ 33)) t) high ∙ xor_cancel x (x / 2 ^ 33)

-- Multiplication by an odd constant, undone by its inverse.
mul_first : (x : ℕ) → x < word → u64 (u64 (x * 0xff51afd7ed558ccd) * 0x4f74430c22a54005) ≡ x
mul_first x h = omega arith

mul_second : (x : ℕ) → x < word → u64 (u64 (x * 0xc4ceb9fe1a85ec53) * 0x9cb4b2f8129337db) ≡ x
mul_second x h = omega arith

mul_c1 : (x : ℕ) → x < word → u64 (u64 (x * c1) * 0xa98409e882ce4d7d) ≡ x
mul_c1 x h = omega arith

mul_c2 : (x : ℕ) → x < word → u64 (u64 (x * c2) * 0xa81e14edd9de2c7f) ≡ x
mul_c2 x h = omega arith

-- What has an inverse on words loses nothing.
module _ (f g : ℕ → ℕ) (undo : (x : ℕ) → x < word → g (f x) ≡ x) where
  injective_of : (x y : ℕ) → x < word → y < word → f x ≡ f y → x ≡ y
  injective_of x y hx hy e = sym (undo x hx) ∙ ap g e ∙ undo y hy

mix64_undo : ℕ → ℕ
mix64_undo y =
    let b = xorshift y in
    let a = xorshift (u64 (b * 0x9cb4b2f8129337db)) in xorshift (u64 (a * 0x4f74430c22a54005))

mix64-undo : (x : ℕ) → x < word → mix64_undo (mix64 x) ≡ x
unfolding mix64_undo mix64
mix64-undo x h =
    let a = u64 (xorshift x * 0xff51afd7ed558ccd) in
    let ha : a < word = omega arith in
    let b = u64 (xorshift a * 0xc4ceb9fe1a85ec53) in
    let hb : b < word = omega arith in
    rw (xorshift_twice b hb, mul_second (xorshift a) (xorshift-lt a ha), xorshift_twice a ha)
      (ap xorshift (mul_first (xorshift x) (xorshift-lt x h)) ∙ xorshift_twice x h)

-- The finaliser is a permutation of the words: a word goes to a word, and no two go to the same.
pub mix64-lt : (x : ℕ) → x < word → mix64 x < word
unfolding mix64
mix64-lt x h = xorshift-lt (u64 (xorshift _ * 0xc4ceb9fe1a85ec53)) (omega arith)

pub mix64_injective : (x y : ℕ) → x < word → y < word → mix64 x ≡ mix64 y → x ≡ y
mix64_injective = injective_of mix64 mix64_undo mix64-undo

-- The three rotations that are used.
pub rotl27-lt : (x : ℕ) → x < word → rotl x 27 < word
rotl27-lt x h = omega arith

pub rotl31-lt : (x : ℕ) → x < word → rotl x 31 < word
rotl31-lt x h = omega arith

rotl33-lt : (x : ℕ) → x < word → rotl x 33 < word
rotl33-lt x h = omega arith

pub rotl27_injective : (x y : ℕ) → x < word → y < word → rotl x 27 ≡ rotl y 27 → x ≡ y
rotl27_injective x y hx hy e = omega (arith, e)

pub rotl31_injective : (x y : ℕ) → x < word → y < word → rotl x 31 ≡ rotl y 31 → x ≡ y
rotl31_injective x y hx hy e = omega (arith, e)

rotl33_injective : (x y : ℕ) → x < word → y < word → rotl x 33 ≡ rotl y 33 → x ≡ y
rotl33_injective x y hx hy e = omega (arith, e)

times_c1 : (x y : ℕ) → x < word → y < word → u64 (x * c1) ≡ u64 (y * c1) → x ≡ y
times_c1 = injective_of (λ x. u64 (x * c1)) (λ x. u64 (x * 0xa98409e882ce4d7d)) mul_c1

times_c2 : (x y : ℕ) → x < word → y < word → u64 (x * c2) ≡ u64 (y * c2) → x ≡ y
times_c2 = injective_of (λ x. u64 (x * c2)) (λ x. u64 (x * 0xa81e14edd9de2c7f)) mul_c2

u64-lt : (x : ℕ) → u64 x < word
u64-lt x = omega arith

pub scramble1-lt : (x : ℕ) → scramble1 x < word
scramble1-lt x = u64-lt (rotl (u64 (x * c1)) 31 * c2)

pub scramble2-lt : (x : ℕ) → scramble2 x < word
scramble2-lt x = u64-lt (rotl (u64 (x * c2)) 33 * c1)

pub scramble1_injective : (x y : ℕ) → x < word → y < word → scramble1 x ≡ scramble1 y → x ≡ y
scramble1_injective x y hx hy e =
    let a = u64 (x * c1) in
    let b = u64 (y * c1) in
    times_c1 x y hx hy (
      rotl31_injective a b (u64-lt (x * c1)) (u64-lt (y * c1)) (
        times_c2 (rotl a 31) (rotl b 31) (rotl31-lt a (u64-lt (x * c1)))
          (rotl31-lt b (u64-lt (y * c1))) e))

pub scramble2_injective : (x y : ℕ) → x < word → y < word → scramble2 x ≡ scramble2 y → x ≡ y
scramble2_injective x y hx hy e =
    let a = u64 (x * c2) in
    let b = u64 (y * c2) in
    times_c2 x y hx hy (
      rotl33_injective a b (u64-lt (x * c2)) (u64-lt (y * c2)) (
        times_c1 (rotl a 33) (rotl b 33) (rotl33-lt a (u64-lt (x * c2)))
          (rotl33-lt b (u64-lt (y * c2))) e))

-- Pairs of words.
abbrev pub Words : HashVal → Type 0
Words h = (h.0 < word) × (h.1 < word)

pub add_both-Words : (h : HashVal) → Words (add_both h)
unfolding add_both
add_both-Words (h1, h2) = (u64-lt (h1 + h2), u64-lt (h2 + u64 (h1 + h2)))

pub add_both_injective :
    (h g : HashVal) → Words h → Words g → add_both h ≡ add_both g → (h.0 ≡ g.0) × (h.1 ≡ g.1)
unfolding add_both
add_both_injective (h1, h2) (g1, g2) wh wg e =
    let e1 : u64 (h1 + h2) ≡ u64 (g1 + g2) = ap (λ p. p.0) e in
    let e2 : u64 (h2 + u64 (h1 + h2)) ≡ u64 (g2 + u64 (g1 + g2)) = ap (λ p. p.1) e in
    let same : h2 ≡ g2 = omega (arith, e1, e2, wh.1, wg.1) in
    (omega (arith, e1, same, wh.0, wg.0), same)

-- Exclusive or with one number.
pub xor_injective_left : (a x y : ℕ) → bit_xor a x ≡ bit_xor a y → x ≡ y
xor_injective_left a x y e = sym (xor_cancel' a x) ∙ ap (bit_xor a) e ∙ xor_cancel' a y

pub xor_injective_right : (a x y : ℕ) → bit_xor x a ≡ bit_xor y a → x ≡ y
xor_injective_right a x y e = sym (xor_cancel x a) ∙ ap (λ (t : ℕ). bit_xor t a) e ∙ xor_cancel y a
