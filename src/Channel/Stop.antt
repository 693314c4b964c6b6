-- ===== src/Channel/Stop.antt =====
-- What a receiver still gets after `stop`.
use asco.Prelude.{
  ℕ, zero, suc, ◌+◌, ◌<◌, ◌≡◌, refl, arith, ap, ◌∙◌, true, false, none, some, List, [], ◌∷◌, ◌++◌,
  length, length-append, ◌==◌,
}
use asco.Channel.{Channel, release, receive, recv, stop}
use asco.Channel.Fifo.{holding}

not_zero : (n : ℕ) → (suc n == 0) ≡ false
not_zero n = ground arith

module _ {ℓ} {T : Type ℓ} (capacity : ℕ) where
  -- The values that `recv` returns until it returns none, in at most `n` calls.
  unfoldable pub drain : ℕ → Channel T → List T
  drain zero c = []
  drain (suc n) c = elim (recv capacity c) [
    | none ↦ []
    | some r ↦ elim r.0 [ none ↦ [] | some v ↦ v ∷ drain n r.1 ]
  ]

  abbrev stopped : ℕ → ℕ → List T → Channel T
  stopped k b q = record { closed = true; count_sem = k; backpress_sem = b; queue = q }

  recv-stopped :
      (k b : ℕ) (v : T) (q : List T)
      → recv capacity (stopped (suc (suc k)) b (v ∷ q))
        ≡ some (some v, stopped (suc k) (release capacity b) q)
  unfolding recv receive
  recv-stopped k b v q = rw (not_zero (suc k), not_zero k) refl

  drain_spare : (q : List T) (n b : ℕ) → length q < n → drain n (stopped (suc (length q)) b q) ≡ q
  unfolding drain recv receive
  drain_spare q zero b h = absurd (omega arith)
  drain_spare [] (suc n) b h = refl
  drain_spare (v ∷ q) (suc n) b h =
      rw (drain, recv-stopped (length q) b _ _)
        (ap (λ (xs : List T). v ∷ xs) (drain_spare q n (release capacity b) (omega arith)))

  drain_short :
      (q : List T) (v : T) (n b : ℕ)
      → length q < n
      → drain n (stopped (suc (length q)) b (q ++ v ∷ [])) ≡ q
  unfolding drain recv receive
  drain_short q v zero b h = absurd (omega arith)
  drain_short [] v (suc n) b h = refl
  drain_short (x ∷ q) v (suc n) b h =
      rw (drain, recv-stopped (length q) b _ _)
        (ap (λ (xs : List T). x ∷ xs) (drain_short q v n (release capacity b) (omega arith)))

  -- After `stop` on a channel that is not full, in which a semaphore counts the values,
  -- receivers get all the values that are left.
  pub stop_lem :
      (q : List T) (b : ℕ)
      → length q < capacity
      → drain (length q + 1) (stop capacity (holding q b)) ≡ q
  stop_lem q b h =
      let one_more : release capacity (length q) ≡ suc (length q) = omega arith in
      ap (λ (k : ℕ). drain (length q + 1) (stopped k (release capacity b) q)) one_more
      ∙ drain_spare q (length q + 1) (release capacity b) (omega arith)

  -- After `stop` on a full channel, whose count of values is the capacity, receivers get all
  -- values but the last.
  pub full_lem :
      (q : List T) (v : T) (b : ℕ)
      → length q + 1 ≡ capacity
      → drain (length q + 2) (stop capacity (holding (q ++ v ∷ []) b)) ≡ q
  full_lem q v b h =
      let capped : release capacity (length (q ++ v ∷ [])) ≡ suc (length q) =
        omega (arith, length-append q (v ∷ [])) in
      ap (λ (k : ℕ). drain (length q + 2) (stopped k (release capacity b) (q ++ v ∷ []))) capped
      ∙ drain_short q v (length q + 2) (release capacity b) (omega arith)
