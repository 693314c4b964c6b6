-- ===== src/HashMap/Search.antt =====
-- What the loop of `do_insert` ends with.
use asco.Prelude.{
  ℕ, zero, suc, ◌+◌, ◌<◌, ◌≡◌, ◌≢◌, ◌⊎◌, inl, inr, arith, none, some, update, fun_ext, update_ne,
  ap, ◌∙◌, dec_lt, true, if_pos, if_neg,
}
use asco.HashMap.Errors.{InsertFailed}
use asco.HashMap.Defs.{HashKey, Bucket, Search, halted, failed, probe, verify, search_slot}
use asco.HashMap.Inv.{Absent, Layout, is_filled}
use asco.HashMap.Walk.{Passed, Passed-zero, Passed-suc, Passed-Absent}

module _ {ℓ} {K V : Type ℓ} {x : Bucket K V} where
  pub ne_tombstone : x ≡ Bucket.tombstone → x ≢ Bucket.empty
  ne_tombstone e h = cc

  pub filled_ne_tombstone :
      {rc : ℕ} {k : K} {v : V} → x ≡ Bucket.tombstone → x ≢ Bucket.filled rc k v
  filled_ne_tombstone e h = cc

  pub filled_ne_empty : {rc : ℕ} {k : K} {v : V} → x ≡ Bucket.filled rc k v → x ≢ Bucket.empty
  filled_ne_empty e h = cc

  pub filled_key :
      {rc rc' : ℕ} {k k' : K} {v v' : V}
      → x ≡ Bucket.filled rc k v
      → x ≡ Bucket.filled rc' k' v'
      → k ≡ k'
  filled_key e h = cc

-- One round of `verify`.
module _ {ℓ} {K V : Type ℓ} ⦃key : HashKey K⦄ (size : ℕ) (k : K) (n i j : ℕ)
    (b : ℕ → Bucket K V) where
  verify_empty : b (probe size k i) ≡ Bucket.empty → verify size k (suc n) i j b ≡ halted b (some j)
  unfolding verify
  verify_empty e = rw (e, verify)

  verify_tombstone :
      b (probe size k i) ≡ Bucket.tombstone
      → verify size k (suc n) i j b ≡ verify size k n (i + 1) j b
  unfolding verify
  verify_tombstone e = rw (e, verify)

  module _ (rc : ℕ) (k' : K) (v : V) (e : b (probe size k i) ≡ Bucket.filled rc k' v) where
    verify_same :
        k' ≡ k
        → verify size k (suc n) i j b
          ≡ failed InsertFailed.key_repeated (update b j Bucket.tombstone)
    unfolding verify
    verify_same same = rw (e, verify, if_pos (key.equal k' k) same)

    verify_other : k' ≢ k → verify size k (suc n) i j b ≡ verify size k n (i + 1) j b
    unfolding verify
    verify_other other = rw (e, verify, if_neg (key.equal k' k) other)

restore {ℓ} :
    {K V : Type ℓ} (b : ℕ → Bucket K V) (j : ℕ)
    → b j ≡ Bucket.tombstone
    → update (update b j Bucket.constructing) j Bucket.tombstone ≡ b
restore b j e = fun_ext (λ i. ground arith)

module _ {ℓ} {K V : Type ℓ} ⦃key : HashKey K⦄ (size : ℕ) (k : K) (b : ℕ → Bucket K V) where
  -- The bucket of probe `m` can take the key, which is nowhere in the array.
  pub record Free (m : ℕ) : Type ℓ where
    pub in_time : m < size
    pub open_slot : (b (probe size k m) ≡ Bucket.empty) ⊎ (b (probe size k m) ≡ Bucket.tombstone)
    pub no_gap : (l : ℕ) → l < m → b (probe size k l) ≢ Bucket.empty
    pub absent : Absent size b k

  -- The three ends of the loop.
  pub data Ends : Search K V → Type ℓ where
    repeated :
        (i rc : ℕ) (v : V)
        → i < size
        → b i ≡ Bucket.filled rc k v
        → Ends (failed InsertFailed.key_repeated b)
    free :
        (m : ℕ)
        → Free m
        → Ends (halted (update b (probe size k m) Bucket.constructing) (some (probe size k m)))
    full : ((l : ℕ) → l < size → is_filled (b (probe size k l)) ≡ true) → Ends (halted b none)

  module _ (lay : Layout size b) (fits : (i : ℕ) → probe size k i < size)
      (inj : (i j : ℕ) → i < size → j < size → probe size k i ≡ probe size k j → i ≡ j) where
    untouched :
        (m i : ℕ)
        → m < i
        → i < size
        → update b (probe size k m) Bucket.constructing (probe size k i) ≡ b (probe size k i)
    untouched m i lt below =
        update_ne b (probe size k m) (probe size k i) Bucket.constructing
          (λ same. absurd (omega (arith, inj m i (omega arith) below same)))

    still_filled :
        (n i : ℕ)
        → i + suc n ≡ size
        → ((l : ℕ) → l < i → is_filled (b (probe size k l)) ≡ true)
        → {rc : ℕ} {k' : K} {v : V} → b (probe size k i) ≡ Bucket.filled rc k' v
        → (l : ℕ) → l < i + 1
        → is_filled (b (probe size k l)) ≡ true
    still_filled n i e taken busy l h = elim (dec_lt l i) [
      | yes lt ↦ taken l lt
      | no ge ↦ let same : l ≡ i = omega arith in rw (same, busy)
    ]

    verify-Ends :
        (m : ℕ)
        → m < size
        → b (probe size k m) ≡ Bucket.tombstone
        → ((l : ℕ) → l < m → b (probe size k l) ≢ Bucket.empty)
        → (n i : ℕ) → m < i
        → i + n ≡ size
        → Passed size k b i
        → Ends (verify size k n i (probe size k m) (update b (probe size k m) Bucket.constructing))
    unfolding verify
    verify-Ends m lt stone before zero i lt' e p = free m (record {
      in_time = lt;
      open_slot = inr stone;
      no_gap = before;
      absent = Passed-Absent size k b i lay p (inr (omega arith));
    })
    verify-Ends m lt stone before (suc n) i lt' e p =
        let below : i < size = omega arith in
        let seen = untouched m i lt' below in
        elim (lay.settled (probe size k i) (fits i)) [
          | inl gap ↦ rw (verify_empty size k n i _ _ (seen ∙ gap)) (
              free m (record {
                in_time = lt;
                open_slot = inr stone;
                no_gap = before;
                absent = Passed-Absent size k b i lay p (inl gap);
              }))
          | inr (inl old) ↦ rw (verify_tombstone size k n i _ _ (seen ∙ old)) (
              verify-Ends m lt stone before n (i + 1) (omega arith) (omega arith) (
                Passed-suc size k b i p (λ x. ne_tombstone old x)
                  (λ rc v x. filled_ne_tombstone old x)))
          | inr (inr (rc, k', v, busy)) ↦ elim (key.equal k' k) [
            | yes same ↦
                rw
                  (
                    verify_same size k n i _ _ rc k' v (seen ∙ busy) same,
                    restore b (probe size k m) stone,
                  )
                  (repeated (probe size k i) rc v (fits i)
                    (busy ∙ ap (λ x. Bucket.filled rc x v) same))
            | no other ↦ rw (verify_other size k n i _ _ rc k' v (seen ∙ busy) other) (
                verify-Ends m lt stone before n (i + 1) (omega arith) (omega arith) (
                  Passed-suc size k b i p (λ x. filled_ne_empty busy x)
                    (λ rc' v' x. other (filled_key busy x))))
          ]
        ]

    search-Ends :
        (n i : ℕ)
        → i + n ≡ size
        → Passed size k b i
        → ((l : ℕ) → l < i → is_filled (b (probe size k l)) ≡ true)
        → Ends (search_slot size k n i b)
    unfolding search_slot
    search-Ends zero i e p taken = full (λ l h. taken l (omega arith))
    search-Ends (suc n) i e p taken = elim (lay.settled (probe size k i) (fits i)) [
      | inl gap ↦
          rw (gap, search_slot)
            (free i (record {
              in_time = omega arith;
              open_slot = inl gap;
              no_gap = p.taken;
              absent = Passed-Absent size k b i lay p (inl gap);
            }))
      | inr (inl old) ↦
          rw (old, search_slot)
            (verify-Ends i (omega arith) old p.taken n (i + 1) (omega arith) (omega arith) (
              Passed-suc size k b i p (λ x. ne_tombstone old x)
                (λ rc v x. filled_ne_tombstone old x)))
      | inr (inr (rc, k', v, busy)) ↦ elim (key.equal k' k) [
        | yes same ↦
            rw (busy, search_slot, if_pos (key.equal k' k) same)
              (repeated (probe size k i) rc v (fits i) (busy ∙ ap (λ x. Bucket.filled rc x v) same))
        | no other ↦
            rw (busy, search_slot, if_neg (key.equal k' k) other)
              (search-Ends n (i + 1) (omega arith)
                (Passed-suc size k b i p (λ x. filled_ne_empty busy x)
                  (λ rc' v' x. other (filled_key busy x)))
                (still_filled n i e taken busy))
      ]
    ]

    pub search_slot-Ends : Ends (search_slot size k size 0 b)
    search_slot-Ends =
        search-Ends size 0 (omega arith) (Passed-zero size k b) (λ l h. absurd (omega arith))
