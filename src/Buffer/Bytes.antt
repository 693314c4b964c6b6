-- ===== src/Buffer/Bytes.antt =====
-- Runs of bytes in an array.
use asco.Prelude.{
  ℕ, zero, suc, ◌+◌, ◌<◌, min, ◌≡◌, refl, arith, ap, sym, ◌∙◌, List, [], ◌∷◌, ◌++◌, append_assoc,
  append-nil, length, update, update_self, update_ne,
}

module _ {ℓ} {A : Type ℓ} where
  abbrev pub take : ℕ → List A → List A
  take zero xs = []
  take (suc n) [] = []
  take (suc n) (x ∷ xs) = x ∷ take n xs

  pub length-take : (n : ℕ) (xs : List A) → length (take n xs) ≡ min n (length xs)
  length-take zero xs = omega arith
  length-take (suc n) [] = omega arith
  length-take (suc n) (x ∷ xs) = omega (arith, length-take n xs)

  pub take_all : (xs : List A) → take (length xs) xs ≡ xs
  take_all [] = refl
  take_all (x ∷ xs) = ap (λ ys. x ∷ ys) (take_all xs)

  -- `xs` copied to `f` from index `c` on.
  abbrev pub write_at : (ℕ → A) → ℕ → List A → ℕ → A
  write_at f c [] = f
  write_at f c (x ∷ xs) = write_at (update f c x) (c + 1) xs

  -- The first `n` bytes.
  abbrev pub firsts : (ℕ → A) → ℕ → List A
  firsts f zero = []
  firsts f (suc n) = firsts f n ++ f n ∷ []

  pub firsts-agree : (f g : ℕ → A) (n : ℕ) → ((i : ℕ) → i < n → f i ≡ g i) → firsts f n ≡ firsts g n
  firsts-agree f g zero same = refl
  firsts-agree f g (suc n) same =
      rw (firsts-agree f g n (λ i h. same i (omega arith)), same n (omega arith))

  pub firsts-write_at :
      (f : ℕ → A) (c : ℕ) (xs : List A)
      → firsts (write_at f c xs) (c + length xs) ≡ firsts f c ++ xs
  firsts-write_at f c [] =
      let here : c + 0 ≡ c = omega arith in ap (firsts f) here ∙ sym (append-nil (firsts f c))
  firsts-write_at f c (x ∷ xs) =
      ap (firsts (write_at (update f c x) (c + 1) xs)) far
      ∙ firsts-write_at (update f c x) (c + 1) xs
      ∙ ap (λ (ys : List A). ys ++ xs) next
      ∙ append_assoc (firsts f c) (x ∷ []) xs
    where
      far : c + suc (length xs) ≡ (c + 1) + length xs
      far = omega arith

      near : c + 1 ≡ suc c
      near = omega arith

      next : firsts (update f c x) (c + 1) ≡ firsts f c ++ x ∷ []
      next =
          ap (firsts (update f c x)) near
          ∙ ap (λ (y : A). firsts (update f c x) c ++ y ∷ []) (update_self f c x)
          ∙ ap (λ (ys : List A). ys ++ x ∷ [])
              (firsts-agree (update f c x) f c (λ i h. update_ne f c i x (λ e. omega arith)))
