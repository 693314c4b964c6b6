-- ===== src/HashMap/Destroy.antt =====
-- The destructor of asco/concurrency/hash_map.h: which keys and values it destroys.
use mathlib.Core.Option
use asco.Prelude.{
  ℕ, zero, suc, ◌+◌, ◌≤◌, ◌<◌, ◌≡◌, ◌≢◌, refl, sym, ap, ◌∙◌, arith, ◌↔◌, ◌⊎◌, inl, inr, false,
  to_nat, Option, none, some, List, [], ◌∷◌, length, count, count-suc, count_zero, ℕ_discrete,
}
use asco.SpinRwLock.Alone.{try_write}
use asco.HashMap.Defs.{HashKey, Bucket, Table}
use asco.HashMap.Api.{HashMap}
use asco.HashMap.Inv.{Holds, is_filled}
use asco.HashMap.Calls.{Quiet, Unguarded}

-- How `~hash_map` ends, with the keys and values that it has destroyed.
pub data Ending {ℓ} (K V : Type ℓ) : Type ℓ where
  panicked : Ending K V
  waits : Ending K V
  destroyed : List (K × V) → Ending K V

module _ {ℓ} {K V : Type ℓ} where
  -- The loop over the `n` buckets from index `i`. `none`: it waits for a guard, which no other thread
  -- gives back here.
  unfoldable pub destroy_from : (ℕ → Bucket K V) → ℕ → ℕ → Option (List (K × V))
  destroy_from b zero i = some []
  destroy_from b (suc n) i =
      let rest = destroy_from b n (i + 1) in
      elim (b i) [
        | Bucket.filled zero k v ↦ Option.map (λ xs. (k, v) ∷ xs) rest
        | Bucket.filled (suc rc) k v ↦ none
        | _ ↦ rest
      ]

  -- `~hash_map`
  unfoldable pub destroy : HashMap K V → Ending K V
  destroy s = elim (try_write s.lock) [
    | none ↦ Ending.panicked
    | some l ↦ elim (destroy_from s.table.bucket s.table.size 0) [
      | none ↦ Ending.waits
      | some xs ↦ Ending.destroyed xs
    ]
  ]

-- The entry is one of the list's.
abbrev pub Among : {K V : Type 0} → K × V → List (K × V) → Type 0
Among p [] = ⊥
Among p (x ∷ xs) = (x ≡ p) ⊎ Among p xs

module _ {K V : Type 0} (b : ℕ → Bucket K V) where
  -- An entry that no guard is on, in the `n` buckets from index `i`.
  abbrev Free : ℕ → ℕ → K → V → Type 0
  Free n i k v = (j : ℕ) × (i ≤ j) × (j < i + n) × (b j ≡ Bucket.filled 0 k v)

  record Swept (n i : ℕ) : Type 0 where
    pub left : List (K × V)
    pub runs : destroy_from b n i ≡ some left
    pub amount : length left + count is_filled i b ≡ count is_filled (i + n) b
    pub entries : (k : K) (v : V) → Among (k, v) left ↔ Free n i k v

  swept_none : (i : ℕ) → Swept 0 i
  unfolding destroy_from
  swept_none i =
      let same : i ≡ i + 0 = omega arith in
      record {
        left = [];
        runs = refl;
        amount = omega (arith, ap (λ n. count is_filled n b) same);
        entries = λ k v. (λ e. absurd e, λ f. absurd (omega (arith, f.1, f.2)));
      }

  next_count : (i : ℕ) → count is_filled (i + 1) b ≡ count is_filled i b + to_nat (is_filled (b i))
  next_count i =
      let next : i + 1 ≡ suc i = omega arith in
      ap (λ n. count is_filled n b) next ∙ count-suc is_filled i b

  -- A bucket without an entry adds nothing.
  skip_Free :
      (n i : ℕ) (k : K) (v : V)
      → b i ≢ Bucket.filled 0 k v
      → Free n (i + 1) k v ↔ Free (suc n) i k v
  skip_Free n i k v other = (
    λ f. (f.0, omega (arith, f.1), omega (arith, f.2), f.3),
    λ f. elim (ℕ_discrete i f.0) [
      | yes here ↦ absurd (other (ap b here ∙ f.3))
      | no further ↦ (f.0, omega (arith, f.1, further), omega (arith, f.2), f.3)
    ],
  )

  skipped :
      (n i : ℕ)
      → Swept n (i + 1)
      → destroy_from b (suc n) i ≡ destroy_from b n (i + 1)
      → is_filled (b i) ≡ false
      → ((k : K) (v : V) → b i ≢ Bucket.filled 0 k v)
      → Swept (suc n) i
  skipped n i rest same flat other =
      let shift : i + 1 + n ≡ i + suc n = omega arith in
      record {
        left = rest.left;
        runs = same ∙ rest.runs;
        amount =
            omega (
              arith,
              rest.amount,
              next_count i,
              ap to_nat flat,
              ap (λ m. count is_filled m b) shift,
            );
        entries = λ k v.
            let skip = skip_Free n i k v (other k v) in
            let kept = rest.entries k v in (λ a. skip.0 (kept.0 a), λ f. kept.1 (skip.1 f));
      }

  filled-at :
      (n i : ℕ) (k : K) (v : V) → Swept n (i + 1) → b i ≡ Bucket.filled 0 k v → Swept (suc n) i
  unfolding destroy_from
  filled-at n i k v rest here =
      let shift : i + 1 + n ≡ i + suc n = omega arith in
      let weighs : to_nat (is_filled (b i)) ≡ 1 = ap (λ x. to_nat (is_filled x)) here in
      record {
        left = (k, v) ∷ rest.left;
        runs = rw (destroy_from, here, rest.runs) refl;
        amount =
            omega (arith, rest.amount, next_count i, weighs, ap (λ m. count is_filled m b) shift);
        entries = λ k' v'. (
          λ a. elim a [
            | inl e ↦ (i, omega arith, omega arith, here ∙ ap (λ p. Bucket.filled 0 p.0 p.1) e)
            | inr later ↦
                let f = (rest.entries k' v').0 later in
                (f.0, omega (arith, f.1), omega (arith, f.2), f.3)
          ],
          λ f. elim (ℕ_discrete i f.0) [
            | yes same ↦
                let e : Bucket.filled 0 k v ≡ Bucket.filled 0 k' v' = sym here ∙ ap b same ∙ f.3 in
                let ek : k ≡ k' = cc in let ev : v ≡ v' = cc in inl (λ x. (ek x, ev x))
            | no further ↦
                inr (
                  (rest.entries k' v').1
                    (f.0, omega (arith, f.1, further), omega (arith, f.2), f.3))
          ],
        );
      }

  NotGuarded : ℕ → ℕ → Type 0
  NotGuarded n i =
      (j rc : ℕ) (k : K) (v : V) → i ≤ j → j < i + n → b j ≡ Bucket.filled rc k v → rc ≡ 0

  later_ones : (n i : ℕ) → NotGuarded (suc n) i → NotGuarded n (i + 1)
  unfolding NotGuarded
  later_ones n i h =
      λ j rc k v above below e. h j rc k v (omega (arith, above)) (omega (arith, below)) e

  sweep_one :
      (n i : ℕ)
      → NotGuarded (suc n) i
      → (x : Bucket K V) → b i ≡ x
      → Swept n (i + 1)
      → Swept (suc n) i
  unfolding destroy_from NotGuarded
  sweep_one n i h Bucket.empty e rest =
      skipped n i rest (rw (destroy_from, e) refl) (ap is_filled e) (λ k v f. cc)
  sweep_one n i h Bucket.constructing e rest =
      skipped n i rest (rw (destroy_from, e) refl) (ap is_filled e) (λ k v f. cc)
  sweep_one n i h (Bucket.filled zero k v) e rest = filled-at n i k v rest e
  sweep_one n i h (Bucket.filled (suc rc) k v) e rest =
      let none_left : suc rc ≡ 0 = h i (suc rc) k v (omega arith) (omega arith) e in
      absurd (omega (arith, none_left))
  sweep_one n i h (Bucket.predestructing rc k v) e rest =
      skipped n i rest (rw (destroy_from, e) refl) (ap is_filled e) (λ k v f. cc)
  sweep_one n i h Bucket.destructing e rest =
      skipped n i rest (rw (destroy_from, e) refl) (ap is_filled e) (λ k v f. cc)
  sweep_one n i h Bucket.tombstone e rest =
      skipped n i rest (rw (destroy_from, e) refl) (ap is_filled e) (λ k v f. cc)

  sweep : (n i : ℕ) → NotGuarded n i → Swept n i
  sweep zero i h = swept_none i
  sweep (suc n) i h = sweep_one n i h (b i) refl (sweep n (i + 1) (later_ones n i h))

module _ {K V : Type 0} ⦃key : HashKey K⦄ where
  all-below : (t : Table K V) → Unguarded t → NotGuarded t.bucket t.size 0
  unfolding NotGuarded
  all-below t calm = λ j rc k v above below e. calm j rc k v (omega (arith, below)) e

  -- The destructor of a map that no call is in and on which there is no guard destroys the keys and
  -- values of just its entries, each once: as many as `size` says.
  pub destroy_lem :
      (s : HashMap K V)
      → Quiet s
      → Unguarded s.table
      → (xs : List (K × V)) × (destroy s ≡ Ending.destroyed xs)
        × (length xs ≡ s.table.load)
        × ((k : K) (v : V) → Among (k, v) xs ↔ Holds s.table.size s.table.bucket k v)
  unfolding destroy try_write
  destroy_lem s q calm =
      let swept = sweep s.table.bucket s.table.size 0 (all-below s.table calm) in
      let whole : 0 + s.table.size ≡ s.table.size = omega arith in
      (
        swept.left,
        rw (destroy, q.unlocked, swept.runs) refl,
        omega (
          arith,
          swept.amount,
          q.inv.counted,
          count_zero is_filled s.table.bucket,
          ap (λ n. count is_filled n s.table.bucket) whole,
        ),
        λ k v. (
          λ a. let f = (swept.entries k v).0 a in (f.0, 0, omega (arith, f.2), f.3),
          λ h.
              let free : h.1 ≡ 0 = calm h.0 h.1 k v h.2 h.3 in
              (swept.entries k v).1
                (h.0, omega arith, omega (arith, h.2), h.3 ∙ ap (λ rc. Bucket.filled rc k v) free),
        ),
      )
