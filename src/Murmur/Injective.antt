-- ===== src/Murmur/Injective.antt =====
-- Strings of one block do not collide.
use asco.Prelude.{
  ℕ, zero, suc, ◌+◌, ◌-◌, ◌≤◌, ◌<◌, ◌≡◌, ◌≢◌, refl, sym, ap, ◌∙◌, arith, List, [], ◌∷◌, ◌++◌,
  length, leb, if◌then◌else◌, Bool-cases, inl, inr, leb→le,
}
use asco.Murmur.{take, drop, concat_from, concat64le, HashVal, round, rounds, finish, hash_str}
use asco.Murmur.Words.{word, Words}
use asco.Murmur.Bytes.{Bytes, concat64le_lem, concat64le_injective}
use asco.Murmur.Rounds.{round_injective_keys, round-Words, finish_injective}

take-append-drop : (n : ℕ) (xs : List ℕ) → take n xs ++ drop n xs ≡ xs
take-append-drop zero xs = refl
take-append-drop (suc n) [] = refl
take-append-drop (suc n) (x ∷ xs) = ap (λ t. x ∷ t) (take-append-drop n xs)

length-take : (n : ℕ) (xs : List ℕ) → length (take n xs) + (length xs - n) ≡ length xs
length-take zero xs = omega arith
length-take (suc n) [] = omega arith
length-take (suc n) (x ∷ xs) = omega (arith, length-take n xs)

length-drop : (n : ℕ) (xs : List ℕ) → length (drop n xs) ≡ length xs - n
length-drop zero xs = omega arith
length-drop (suc n) [] = omega arith
length-drop (suc n) (x ∷ xs) = omega (arith, length-drop n xs)

take_all : (n : ℕ) (xs : List ℕ) → length xs ≤ n → take n xs ≡ xs
take_all zero [] h = refl
take_all zero (x ∷ xs) h = absurd (omega arith)
take_all (suc n) [] h = refl
take_all (suc n) (x ∷ xs) h = ap (λ t. x ∷ t) (take_all n xs (omega arith))

drop_all : (n : ℕ) (xs : List ℕ) → length xs ≤ n → drop n xs ≡ []
drop_all zero [] h = refl
drop_all zero (x ∷ xs) h = absurd (omega arith)
drop_all (suc n) [] h = refl
drop_all (suc n) (x ∷ xs) h = drop_all n xs (omega arith)

take-Bytes : (n : ℕ) (xs : List ℕ) → Bytes xs → Bytes (take n xs)
take-Bytes zero xs b = tt
take-Bytes (suc n) [] b = tt
take-Bytes (suc n) (x ∷ xs) b = (b.0, take-Bytes n xs b.1)

drop-Bytes : (n : ℕ) (xs : List ℕ) → Bytes xs → Bytes (drop n xs)
drop-Bytes zero xs b = b
drop-Bytes (suc n) [] b = tt
drop-Bytes (suc n) (x ∷ xs) b = drop-Bytes n xs b.1

-- The second word of a block, with or without the test.
abbrev second : List ℕ → ℕ
second xs = concat64le (take 8 (drop 8 xs))

second_lem : (xs : List ℕ) → (if leb (length xs) 8 then 0 else second xs) ≡ second xs
unfolding concat_from
second_lem xs = elim (Bool-cases (leb (length xs) 8)) [
  | inl short ↦
      let none_left : drop 8 xs ≡ [] = drop_all 8 xs (leb→le (length xs) 8 short) in
      rw (short, none_left) refl
  | inr long ↦ rw long refl
]

rounds_done : (n : ℕ) (h : HashVal) → rounds n h [] ≡ h
unfolding rounds
rounds_done zero h = refl
rounds_done (suc n) h = refl

-- One block.
one_round :
    (x : ℕ) (xs : List ℕ)
    → length xs < 16
    → rounds (suc (length xs)) (0, 0) (x ∷ xs)
      ≡ round (0, 0) (concat64le (take 8 (x ∷ xs))) (second (x ∷ xs))
unfolding rounds
one_round x xs h =
    let h1 = round (0, 0) (concat64le (take 8 (x ∷ xs))) (second (x ∷ xs)) in
    ap (λ t. rounds (length xs) (round (0, 0) (concat64le (take 8 (x ∷ xs))) t) (drop 15 xs))
      (second_lem (x ∷ xs))
    ∙ ap (rounds (length xs) h1) (drop_all 15 xs (omega arith))
    ∙ rounds_done (length xs) h1

word_of : (xs : List ℕ) → Bytes xs → concat64le (take 8 xs) < word
word_of xs b = (concat64le_lem (take 8 xs) (take-Bytes 8 xs b) (omega (arith, length-take 8 xs))).1

abbrev block : List ℕ → HashVal
block xs = (concat64le (take 8 xs), second xs)

block-Words : (xs : List ℕ) → Bytes xs → Words (block xs)
block-Words xs b = (word_of xs b, word_of (drop 8 xs) (drop-Bytes 8 xs b))

block_injective :
    (xs ys : List ℕ)
    → Bytes xs
    → Bytes ys
    → length xs ≤ 16
    → length xs ≡ length ys
    → concat64le (take 8 xs) ≡ concat64le (take 8 ys)
    → second xs ≡ second ys
    → xs ≡ ys
block_injective xs ys bx bys short n e1 e2 =
    let first : take 8 xs ≡ take 8 ys =
      concat64le_injective (take 8 xs) (take 8 ys) (take-Bytes 8 xs bx) (take-Bytes 8 ys bys)
        (omega (arith, length-take 8 xs)) (omega (arith, length-take 8 xs, length-take 8 ys, n))
        e1 in
    let restx : take 8 (drop 8 xs) ≡ drop 8 xs =
      take_all 8 (drop 8 xs) (omega (arith, length-drop 8 xs, short)) in
    let resty : take 8 (drop 8 ys) ≡ drop 8 ys =
      take_all 8 (drop 8 ys) (omega (arith, length-drop 8 ys, short, n)) in
    let others : drop 8 xs ≡ drop 8 ys =
      concat64le_injective (drop 8 xs) (drop 8 ys) (drop-Bytes 8 xs bx) (drop-Bytes 8 ys bys)
        (omega (arith, length-drop 8 xs, short))
        (omega (arith, length-drop 8 xs, length-drop 8 ys, n))
        (ap concat64le (sym restx) ∙ e2 ∙ ap concat64le resty) in
    sym (take-append-drop 8 xs)
    ∙ ap (λ t. t ++ drop 8 xs) first
    ∙ ap (λ t. take 8 ys ++ t) others
    ∙ take-append-drop 8 ys

hash_str_injective :
    (xs ys : List ℕ)
    → Bytes xs
    → Bytes ys
    → length xs ≤ 16
    → length xs ≡ length ys
    → hash_str xs ≡ hash_str ys
    → xs ≡ ys
hash_str_injective [] [] bx bys short n e = refl
hash_str_injective [] (y ∷ ys) bx bys short n e = absurd (omega (arith, n))
hash_str_injective (x ∷ xs) [] bx bys short n e = absurd (omega (arith, n))
hash_str_injective (x ∷ xs) (y ∷ ys) bx bys short n e =
    let k = block (x ∷ xs) in
    let l = block (y ∷ ys) in
    let same : finish (round (0, 0) k.0 k.1) (suc (length xs))
        ≡ finish (round (0, 0) l.0 l.1) (suc (length xs)) =
      ap (λ t. finish t (suc (length xs))) (sym (one_round x xs (omega (arith, short))))
      ∙ e
      ∙ ap (λ t. finish t (suc (length ys))) (one_round y ys (omega (arith, short, n)))
      ∙ ap (λ (t : ℕ). finish (round (0, 0) l.0 l.1) t) (sym n) in
    let states =
      finish_injective (round (0, 0) k.0 k.1) (round (0, 0) l.0 l.1) (suc (length xs))
        (round-Words (0, 0) k.0 k.1) (round-Words (0, 0) l.0 l.1) (omega (arith, short)) same in
    let words =
      round_injective_keys (0, 0) k.0 k.1 l.0 l.1 (omega arith, omega arith)
        (block-Words (x ∷ xs) bx) (block-Words (y ∷ ys) bys) (λ i. (states.0 i, states.1 i)) in
    block_injective (x ∷ xs) (y ∷ ys) bx bys short n words.0 words.1

-- Two different strings of the same length, of at most 16 bytes, have different hashes.
pub hash_str_apart :
    (xs ys : List ℕ)
    → Bytes xs
    → Bytes ys
    → length xs ≤ 16
    → length xs ≡ length ys
    → xs ≢ ys
    → hash_str xs ≢ hash_str ys
hash_str_apart xs ys bx bys short n apart = λ e. apart (hash_str_injective xs ys bx bys short n e)
