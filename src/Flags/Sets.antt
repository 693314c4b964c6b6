-- ===== src/Flags/Sets.antt =====
-- Flags are sets of the enumerators below 31.
use asco.Prelude.{
  ℕ, zero, suc, ◌-◌, ◌*◌, ◌^◌, ◌<◌, min, max, ◌≡◌, ◌≢◌, refl, sym, ap, ◌∙◌, arith, bit_and, bit_or,
  to_nat, Bool, true, false, ◌&&◌, ◌||◌, not, lt→ltb, ◌==◌, ℕ_discrete,
}
use native.Mathlib.Nat.{one-mul, one-le-pow, pow-le-pow_right}
use asco.Prelude.Digits.{
  digit, digit-zero, digit-bit_or, digit-bit_and, digit-pow_self, digit-pow_ne, digit-complement,
  bit_and-pow,
}
use asco.Flags.{bit_of, or_flag, or_flags, minus_flag, contains}

module _ (beyond : ℕ → ℕ) where
  bit_of_small : (e : ℕ) → e < 31 → bit_of beyond e ≡ 2 ^ e
  bit_of_small e h = rw (lt→ltb e 31 h) refl

  -- A digit as a Boolean.
  abbrev is_set : ℕ → ℕ → Bool
  is_set d m = digit d m == 1

  one_digit : (x p : ℕ) → x < 2 → p ≢ 0 → (x * p == p) ≡ (x == 1)
  one_digit zero p h ne = ground arith
  one_digit (suc zero) p h ne = ground (arith, one-mul p)
  one_digit (suc (suc x)) p h ne = absurd (omega arith)

  contains_digit : (m e : ℕ) → e < 31 → contains beyond m e ≡ is_set e m
  unfolding contains
  contains_digit m e h =
      ap (λ (t : ℕ). bit_and m t == t) (bit_of_small e h)
      ∙ ap (λ (t : ℕ). t == 2 ^ e) (bit_and-pow e m)
      ∙ one_digit (digit e m) (2 ^ e) (omega arith)
          (λ none. omega (arith, none, one-le-pow e 2 (omega arith)))

  -- The digits of one flag.
  flag_digit : (e d : ℕ) → digit d (2 ^ e) ≡ to_nat (e == d)
  flag_digit e d = elim (ℕ_discrete e d) [
    | yes same ↦
        let hit : (e == d) ≡ true = ground (arith, same) in
        ap (λ x. digit x (2 ^ e)) (sym same) ∙ digit-pow_self e ∙ ap to_nat (sym hit)
    | no other ↦
        let miss : (e == d) ≡ false = ground (arith, other) in
        digit-pow_ne d e (λ same. other (sym same)) ∙ ap to_nat (sym miss)
  ]

  or_digits : (x y : ℕ) → x < 2 → y < 2 → (max x y == 1) ≡ ((x == 1) || (y == 1))
  or_digits x y hx hy = ground arith

  minus_digits : (x : ℕ) (b : Bool) → x < 2 → (min x (1 - to_nat b) == 1) ≡ ((x == 1) && not b)
  minus_digits x b hx = ground arith

  contains-or_flags :
      (m o d : ℕ)
      → d < 31
      → contains beyond (or_flags beyond m o) d ≡ (contains beyond m d || contains beyond o d)
  contains-or_flags m o d h =
      contains_digit (bit_or m o) d h
      ∙ ap (λ (t : ℕ). t == 1) (digit-bit_or d m o)
      ∙ or_digits (digit d m) (digit d o) (omega arith) (omega arith)
      ∙ ap (λ t. t || is_set d o) (sym (contains_digit m d h))
      ∙ ap (λ t. contains beyond m d || t) (sym (contains_digit o d h))

  contains_flag : (e d : ℕ) → e < 31 → d < 31 → contains beyond (bit_of beyond e) d ≡ (e == d)
  contains_flag e d he hd =
      ap (λ (t : ℕ). contains beyond t d) (bit_of_small e he)
      ∙ contains_digit (2 ^ e) d hd
      ∙ ap (λ (t : ℕ). t == 1) (flag_digit e d)
      ∙ ground arith

  contains-minus_flag :
      (m e d : ℕ)
      → e < 31
      → d < 31
      → contains beyond (minus_flag beyond m e) d ≡ (contains beyond m d && not (e == d))
  unfolding minus_flag
  contains-minus_flag m e d he hd =
      let rest : digit d (2 ^ 64 - 1 - 2 ^ e) ≡ 1 - to_nat (e == d) =
        digit-complement 64 d (2 ^ e) (omega arith)
          (omega (arith, pow-le-pow_right {n = 2} (omega arith) {i = e} {j = 31} (omega arith)))
        ∙ ap (λ (t : ℕ). 1 - t) (flag_digit e d) in
      ap (λ (t : ℕ). contains beyond (bit_and m (2 ^ 64 - 1 - t)) d) (bit_of_small e he)
      ∙ contains_digit (bit_and m (2 ^ 64 - 1 - 2 ^ e)) d hd
      ∙ ap (λ (t : ℕ). t == 1)
          (digit-bit_and d m (2 ^ 64 - 1 - 2 ^ e) ∙ ap (λ (t : ℕ). min (digit d m) t) rest)
      ∙ minus_digits (digit d m) (e == d) (omega arith)
      ∙ ap (λ t. t && not (e == d)) (sym (contains_digit m d hd))

  contains-or_flag :
      (m e d : ℕ)
      → e < 31
      → d < 31
      → contains beyond (or_flag beyond m e) d ≡ (contains beyond m d || (e == d))
  unfolding or_flag
  contains-or_flag m e d he hd =
      contains-or_flags m (bit_of beyond e) d hd
      ∙ ap (λ t. contains beyond m d || t) (contains_flag e d he hd)

  -- For enumerators below 31, flags behave as sets: adding one, adding flags and taking one away change
  -- what is contained as union and difference do, and no flags contain nothing.
  pub flags_lem :
      (m o e d : ℕ)
      → e < 31
      → d < 31
      → (contains beyond 0 d ≡ false)
        × (contains beyond (or_flag beyond m e) d ≡ (contains beyond m d || (e == d)))
        × (contains beyond (or_flags beyond m o) d ≡ (contains beyond m d || contains beyond o d))
        × (contains beyond (minus_flag beyond m e) d ≡ (contains beyond m d && not (e == d)))
  flags_lem m o e d he hd = (
    contains_digit 0 d hd ∙ ap (λ (t : ℕ). t == 1) (digit-zero d),
    contains-or_flag m e d he hd,
    contains-or_flags m o d hd,
    contains-minus_flag m e d he hd,
  )
