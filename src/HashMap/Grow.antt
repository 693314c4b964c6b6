-- ===== src/HashMap/Grow.antt =====
-- The array after an entry is put into an open bucket on its key's path.
use asco.Prelude.{
  ℕ, ◌+◌, ◌<◌, ◌≡◌, ◌≢◌, ◌⊎◌, inl, inr, ◌↔◌, arith, update, update_self, update_ne, ap, ◌∙◌, sym,
  subst, false, count, count-update, ℕ_discrete,
}
use asco.HashMap.Defs.{HashKey, Bucket, probe}
use asco.HashMap.Inv.{Holds, Layout, Reached, IsSettled, is_filled}
use asco.HashMap.Search.{Free, filled_key}

clash {ℓ} :
    {K V : Type ℓ} (b : ℕ → Bucket K V) {p i rc : ℕ} {k : K} {v : V}
    → is_filled (b p) ≡ false
    → p ≡ i
    → b i ≡ Bucket.filled rc k v
    → ⊥
clash b unfilled same e =
    let h : is_filled (b _) ≡ false = rw same at unfilled in cc (ap is_filled e)

module _ {ℓ} {K V : Type ℓ} ⦃key : HashKey K⦄ (size : ℕ) (k : K) (v : V) (b : ℕ → Bucket K V)
    (m : ℕ) (fits : (i : ℕ) → probe size k i < size) (lay : Layout size b)
    (f : Free size k b m) where
  -- The array with the entry in the bucket of probe `m`.
  abbrev pub grown : ℕ → Bucket K V
  grown = update b (probe size k m) (Bucket.filled 0 k v)

  grown_hit : grown (probe size k m) ≡ Bucket.filled 0 k v
  grown_hit = update_self b (probe size k m) (Bucket.filled 0 k v)

  grown_miss : (i : ℕ) → probe size k m ≢ i → grown i ≡ b i
  grown_miss i ne = update_ne b (probe size k m) i (Bucket.filled 0 k v) ne

  grown_kept : (i : ℕ) → b i ≢ Bucket.empty → grown i ≢ Bucket.empty
  grown_kept i taken e = elim (ℕ_discrete (probe size k m) i) [
    | yes same ↦ let h : grown i ≡ Bucket.filled 0 k v = rw (← same) grown_hit in cc
    | no other ↦ taken (sym (grown_miss i other) ∙ e)
  ]

  Reached-grown : (k' : K) (i : ℕ) → Reached size b k' i → Reached size grown k' i
  Reached-grown k' i r = record {
    round = r.round;
    in_time = r.in_time;
    hits = r.hits;
    no_gap = λ l h. grown_kept _ (r.no_gap l h);
  }

  grown-IsSettled : (i : ℕ) → i < size → IsSettled (grown i)
  grown-IsSettled i h = elim (ℕ_discrete (probe size k m) i) [
    | yes same ↦ inr (inr (0, k, v, rw (← same) grown_hit))
    | no other ↦ rw (grown_miss i other) (lay.settled i h)
  ]

  grown-Reached :
      (i rc : ℕ) (k' : K) (v' : V)
      → i < size
      → grown i ≡ Bucket.filled rc k' v'
      → Reached size grown k' i
  grown-Reached i rc k' v' h e = elim (ℕ_discrete (probe size k m) i) [
    | yes same ↦
        let here : grown i ≡ Bucket.filled 0 k v = rw (← same) grown_hit in
        subst (λ x. Reached size grown x i) (filled_key here e)
          (record {
            round = m;
            in_time = f.in_time;
            hits = same;
            no_gap = λ l lt. grown_kept _ (f.no_gap l lt);
          })
    | no other ↦ Reached-grown k' i (lay.reached i rc k' v' h (sym (grown_miss i other) ∙ e))
  ]

  -- An entry of the grown array is the new one or an old one.
  grown_cases :
      (i rc : ℕ) (k' : K) (v' : V)
      → grown i ≡ Bucket.filled rc k' v'
      → ((probe size k m ≡ i) × (k ≡ k') × (v ≡ v'))
        ⊎ ((probe size k m ≢ i) × (b i ≡ Bucket.filled rc k' v'))
  grown_cases i rc k' v' e = elim (ℕ_discrete (probe size k m) i) [
    | yes same ↦
        let here : grown i ≡ Bucket.filled 0 k v = rw (← same) grown_hit in
        let joined : Bucket.filled 0 k v ≡ Bucket.filled rc k' v' = sym here ∙ e in
        inl (same, cc, cc)
    | no other ↦ inr (other, sym (grown_miss i other) ∙ e)
  ]

  grown_unique :
      (i j rc rc' : ℕ) (k' : K) (v' v'' : V)
      → i < size
      → j < size
      → grown i ≡ Bucket.filled rc k' v'
      → grown j ≡ Bucket.filled rc' k' v''
      → i ≡ j
  grown_unique i j rc rc' k' v' v'' hi hj ei ej = elim (grown_cases i rc k' v' ei) [
    | inl (same, ek, _) ↦ elim (grown_cases j rc' k' v'' ej) [
      | inl (same', _, _) ↦ sym same ∙ same'
      | inr (_, old) ↦ absurd (f.absent j rc' v'' hj (rw ek old))
    ]
    | inr (_, old) ↦ elim (grown_cases j rc' k' v'' ej) [
      | inl (_, ek, _) ↦ absurd (f.absent i rc v' hi (rw ek old))
      | inr (_, old') ↦ lay.unique i j rc rc' k' v' v'' hi hj old old'
    ]
  ]

  pub grown-Layout : Layout size grown
  grown-Layout = record {
    settled = grown-IsSettled;
    reached = grown-Reached;
    unique = grown_unique;
  }

  not_filled : is_filled (b (probe size k m)) ≡ false
  not_filled = elim f.open_slot [ inl e ↦ rw e | inr e ↦ rw e ]

  -- The array holds one entry more, and otherwise what it held.
  pub grown-Holds :
      (k' : K) (v' : V) → Holds size grown k' v' ↔ (((k ≡ k') × (v ≡ v')) ⊎ Holds size b k' v')
  grown-Holds k' v' = (forth, back)
    where
      forth : Holds size grown k' v' → ((k ≡ k') × (v ≡ v')) ⊎ Holds size b k' v'
      forth (i, rc, lt, e) = elim (grown_cases i rc k' v' e) [
        | inl (_, ek, ev) ↦ inl (ek, ev)
        | inr (_, old) ↦ inr (i, rc, lt, old)
      ]

      back : ((k ≡ k') × (v ≡ v')) ⊎ Holds size b k' v' → Holds size grown k' v'
      back (inl (ek, ev)) = (
        probe size k m,
        0,
        fits m,
        grown_hit ∙ ap (λ x. Bucket.filled 0 x v) ek ∙ ap (Bucket.filled 0 k') ev,
      )
      back (inr (i, rc, lt, e)) = (i, rc, lt, grown_miss i (λ same. clash b not_filled same e) ∙ e)

  pub count-grown : count is_filled size grown ≡ count is_filled size b + 1
  count-grown = ground (
    arith,
    count-update is_filled size b (probe size k m) (Bucket.filled 0 k v) (fits m),
    not_filled,
  )
