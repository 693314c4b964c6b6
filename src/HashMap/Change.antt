-- ===== src/HashMap/Change.antt =====
-- The array after the bucket of an entry is given another state: a count, or a tombstone.
use asco.Prelude.{ℕ, ◌<◌, ◌≡◌, ◌≢◌, ◌∙◌, sym, update, update_self, update_ne, ℕ_discrete, subst, ap}
use asco.HashMap.Defs.{HashKey, Bucket}
use asco.HashMap.Inv.{Layout, Reached, IsSettled}

module _ {ℓ} {K V : Type ℓ} ⦃key : HashKey K⦄ (size : ℕ) (b : ℕ → Bucket K V) (lay : Layout size b)
    (p rc : ℕ) (k : K) (v : V) (below : p < size) (old : b p ≡ Bucket.filled rc k v)
    (x : Bucket K V) (calm : IsSettled x) (taken : x ≢ Bucket.empty)
    (own : (rc' : ℕ) (k' : K) (v' : V) → x ≡ Bucket.filled rc' k' v' → k ≡ k') where
  abbrev changed : ℕ → Bucket K V
  changed = update b p x

  kept : (i : ℕ) → b i ≢ Bucket.empty → changed i ≢ Bucket.empty
  kept i full e = elim (ℕ_discrete p i) [
    | yes same ↦ let here : changed i ≡ x = rw (← same) (update_self b p x) in taken (sym here ∙ e)
    | no other ↦ full (sym (update_ne b p i x other) ∙ e)
  ]

  -- An entry of the changed array stood in the same bucket before.
  changed-was :
      (i rc' : ℕ) (k' : K) (v' : V)
      → changed i ≡ Bucket.filled rc' k' v'
      → (rc'' : ℕ) × (v'' : V) × (b i ≡ Bucket.filled rc'' k' v'')
  changed-was i rc' k' v' e = elim (ℕ_discrete p i) [
    | yes same ↦
        let here : changed i ≡ x = rw (← same) (update_self b p x) in
        let mine : k ≡ k' = own rc' k' v' (sym here ∙ e) in
        (rc, v, ap b (sym same) ∙ old ∙ ap (λ t. Bucket.filled rc t v) mine)
    | no other ↦ (rc', v', sym (update_ne b p i x other) ∙ e)
  ]

  changed-Reached :
      (i rc' : ℕ) (k' : K) (v' : V)
      → i < size
      → changed i ≡ Bucket.filled rc' k' v'
      → Reached size changed k' i
  changed-Reached i rc' k' v' h e =
      let (rc'', v'', was) = changed-was i rc' k' v' e in
      let r = lay.reached i rc'' k' v'' h was in
      record {
        round = r.round;
        in_time = r.in_time;
        hits = r.hits;
        no_gap = λ l lt. kept _ (r.no_gap l lt);
      }

  pub changed-Layout : Layout size changed
  changed-Layout = record {
    settled = λ i h. elim (ℕ_discrete p i) [
      | yes same ↦
          let here : changed i ≡ x = rw (← same) (update_self b p x) in
          subst IsSettled (sym here) calm
      | no other ↦ subst IsSettled (sym (update_ne b p i x other)) (lay.settled i h)
    ];
    reached = changed-Reached;
    unique = λ i j rc₁ rc₂ k' v₁ v₂ hi hj ei ej.
        let (_, _, was₁) = changed-was i rc₁ k' v₁ ei in
        let (_, _, was₂) = changed-was j rc₂ k' v₂ ej in lay.unique i j _ _ k' _ _ hi hj was₁ was₂;
  }
