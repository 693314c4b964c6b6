-- ===== src/Murmur.antt =====
-- asco/util/murmur.h: the 64-bit finaliser, and the hash of a string.
pub mod Words
pub mod Bytes
pub mod Rounds
pub mod Injective
mod Examples
use asco.Prelude.{
  ℕ, zero, suc, ◌+◌, ◌-◌, ◌*◌, ◌/◌, ◌%◌, ◌^◌, bit_xor, bit_or, List, [], ◌∷◌, length, leb,
  if◌then◌else◌,
}

-- `std::uint64_t` and `std::size_t`: arithmetic modulo 2 ^ 64.
abbrev pub u64 : ℕ → ℕ
u64 n = n % 2 ^ 64

-- `x ^= x >> 33`
unfoldable pub xorshift : ℕ → ℕ
xorshift x = bit_xor x (x / 2 ^ 33)

unfoldable pub mix64 : ℕ → ℕ
unfolding xorshift
mix64 x =
    let a = u64 (xorshift x * 0xff51afd7ed558ccd) in
    let b = u64 (xorshift a * 0xc4ceb9fe1a85ec53) in xorshift b

-- The first `n` bytes, and those after them.
abbrev pub take : ℕ → List ℕ → List ℕ
take zero xs = []
take (suc n) [] = []
take (suc n) (x ∷ xs) = x ∷ take n xs

abbrev pub drop : ℕ → List ℕ → List ℕ
drop zero xs = xs
drop (suc n) [] = []
drop (suc n) (x ∷ xs) = drop n xs

-- The loop of `concat64le` from byte `i` on.
unfoldable pub concat_from : ℕ → ℕ → List ℕ → ℕ
concat_from result i [] = result
concat_from result i (x ∷ xs) = concat_from (bit_or result (u64 (x * 2 ^ (i * 8)))) (suc i) xs

-- `concat64le`; the list is the `nbytes` bytes of `source`.
abbrev pub concat64le : List ℕ → ℕ
concat64le source = concat_from 0 0 source

-- `std::rotl`
abbrev pub rotl : ℕ → ℕ → ℕ
rotl x r = u64 (x * 2 ^ r) + x / 2 ^ (64 - r)

-- `h1` and `h2`
abbrev pub HashVal : Type 0
HashVal = ℕ × ℕ

abbrev pub c1 : ℕ
c1 = 0x87c37b91114253d5

abbrev pub c2 : ℕ
c2 = 0x4cf5ad432745937f

abbrev pub scramble1 : ℕ → ℕ
scramble1 k1 = u64 (rotl (u64 (k1 * c1)) 31 * c2)

abbrev pub scramble2 : ℕ → ℕ
scramble2 k2 = u64 (rotl (u64 (k2 * c2)) 33 * c1)

-- `h1 += h2` and `h2 += h1`
unfoldable pub add_both : HashVal → HashVal
add_both (h1, h2) = let h1' = u64 (h1 + h2) in (h1', u64 (h2 + h1'))

-- The loop's body, for the words `k1` and `k2`.
unfoldable pub round : HashVal → ℕ → ℕ → HashVal
unfolding add_both
round (h1, h2) k1 k2 =
    let h = add_both (rotl (bit_xor h1 (scramble1 k1)) 27, rotl (bit_xor h2 (scramble2 k2)) 31) in
    (u64 (h.0 * 5 + 0x52dce729), u64 (h.1 * 5 + 0x38495ab5))

-- The loop over blocks of 16 bytes, with the bytes that are left, for at most `n` rounds.
unfoldable pub rounds : ℕ → HashVal → List ℕ → HashVal
rounds zero h str = h
rounds (suc n) h [] = h
rounds (suc n) h (x ∷ xs) =
    let k1 = concat64le (take 8 (x ∷ xs)) in
    let rest = drop 8 (x ∷ xs) in
    let k2 = if leb (length (x ∷ xs)) 8 then 0 else concat64le (take 8 rest) in
    rounds n (round h k1 k2) (drop 16 (x ∷ xs))

-- What follows the loop.
unfoldable pub finish : HashVal → ℕ → HashVal
unfolding add_both
finish (h1, h2) len =
    let h = add_both (bit_xor h1 len, bit_xor h2 len) in add_both (mix64 h.0, mix64 h.1)

-- `hash_str`; there are no more rounds than bytes.
abbrev pub hash_str : List ℕ → HashVal
hash_str str = finish (rounds (length str) (0, 0) str) (length str)
