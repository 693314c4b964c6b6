-- ===== src/Murmur/Examples.antt =====
-- The string "asco" and another.
use asco.Prelude.{ℕ, ◌<◌, ◌≡◌, ◌≢◌, refl, ap, arith, List, [], ◌∷◌}
use asco.Murmur.{concat_from, concat64le, hash_str}
use asco.Murmur.Words.{word}
use asco.Murmur.Bytes.{concat64le_lem}
use asco.Murmur.Injective.{hash_str_apart}

abbrev forward : List ℕ
forward = 97 ∷ 115 ∷ 99 ∷ 111 ∷ []

concat_forward : concat64le forward ≡ 0x6f637361
unfolding concat_from
concat_forward = refl

concat64le_lem_example : (concat64le forward ≡ 0x6f637361) × (concat64le forward < word)
concat64le_lem_example = concat64le_lem forward (omega arith) (omega arith)

abbrev backward : List ℕ
backward = 111 ∷ 115 ∷ 99 ∷ 97 ∷ []

first_byte : List ℕ → ℕ
first_byte [] = 0
first_byte (x ∷ xs) = x

two : forward ≢ backward
unfolding first_byte
two e = let same : ◌≡◌ {A = ℕ} 97 111 = ap first_byte e in omega (arith, same)

hash_str_apart_example : hash_str forward ≢ hash_str backward
hash_str_apart_example =
    hash_str_apart forward backward (omega arith) (omega arith) (omega arith) (omega arith) two
