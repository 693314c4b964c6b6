-- ===== src/HashMap/Walk.antt =====
-- One walk along the probes of a key, in an array that is well laid out.
use asco.Prelude.{ℕ, ◌+◌, ◌≤◌, ◌<◌, ◌≡◌, ◌≢◌, ◌⊎◌, inl, inr, arith, dec_lt, ◌∙◌, sym, ap}
use asco.HashMap.Defs.{HashKey, Bucket, probe}
use asco.HashMap.Inv.{Absent, Reached, Layout}

module _ {ℓ} {K V : Type ℓ} ⦃key : HashKey K⦄ (size : ℕ) (k : K) (b : ℕ → Bucket K V) where
  -- The first `i` probes met no empty bucket and not the key.
  pub record Passed (i : ℕ) : Type ℓ where
    pub taken : (l : ℕ) → l < i → b (probe size k l) ≢ Bucket.empty
    pub other : (l rc : ℕ) (v : V) → l < i → b (probe size k l) ≢ Bucket.filled rc k v

  pub Passed-zero : Passed 0
  Passed-zero = record {
    taken = λ l h. absurd (omega arith);
    other = λ l rc v h. absurd (omega arith);
  }

  pub Passed-suc :
      (i : ℕ)
      → Passed i
      → b (probe size k i) ≢ Bucket.empty
      → ((rc : ℕ) (v : V) → b (probe size k i) ≢ Bucket.filled rc k v)
      → Passed (i + 1)
  Passed-suc i p full ne = record {
    taken = λ l h. elim (dec_lt l i) [
      | yes lt ↦ p.taken l lt
      | no ge ↦ let e : l ≡ i = omega arith in rw e full
    ];
    other = λ l rc v h. elim (dec_lt l i) [
      | yes lt ↦ p.other l rc v lt
      | no ge ↦ let e : l ≡ i = omega arith in rw e (ne rc v)
    ];
  }

  -- A walk that stops at an empty bucket, or has made all its probes, has not missed the key.
  pub Passed-Absent :
      (i : ℕ)
      → Layout size b
      → Passed i
      → (b (probe size k i) ≡ Bucket.empty) ⊎ (size ≤ i)
      → Absent size b k
  Passed-Absent i lay p (inr done) j rc v h e =
      let r = lay.reached j rc k v h e in
      p.other r.round rc v (omega (arith, r.in_time)) (rw r.hits e)
  Passed-Absent i lay p (inl gap) j rc v h e = elim (dec_lt i r.round) [
    | yes late ↦ r.no_gap i late gap
    | no early ↦ elim (dec_lt r.round i) [
      | yes lt ↦ p.other r.round rc v lt (rw r.hits e)
      | no ge ↦ meet (omega arith)
    ]
  ]
    where
      r : Reached size b k j
      r = lay.reached j rc k v h e

      meet : r.round ≡ i → ⊥
      meet same =
          let clash : Bucket.empty ≡ Bucket.filled rc k v =
            sym gap ∙ ap (λ (t : ℕ). b (probe size k t)) (sym same) ∙ ap b r.hits ∙ e in
          cc
