-- ===== src/HashMap/Remove.antt =====
-- `do_remove`: what it returns and what the table holds afterwards.
use asco.Prelude.{
  ℕ, zero, suc, ◌+◌, ◌-◌, ◌^◌, ◌<◌, ◌≡◌, refl, ◌≢◌, ◌↔◌, inl, inr, ap, sym, ◌∙◌, arith, update,
  update_self, update_ne, Expected, value, unexpected, if_pos, if_neg, subst, count, count-update,
  count-pos, count-le, ℕ_discrete,
}
use asco.HashMap.Errors.{RemoveFailed}
use asco.HashMap.Defs.{HashKey, Bucket, Table, probe, remove_from, do_remove}
use asco.HashMap.Inv.{Absent, Holds, Inv, is_filled, size-pos, size-le}
use asco.HashMap.Search.{filled_key, ne_tombstone, filled_ne_tombstone, filled_ne_empty}
use asco.HashMap.Walk.{Passed, Passed-zero, Passed-suc, Passed-Absent}
use asco.HashMap.Probe.{probe-lt}
use asco.HashMap.Change.{changed-Layout}
use asco.Murmur.{u64}

-- The end of `do_remove` at the bucket `p` of the key.
abbrev taken {ℓ} : {K V : Type ℓ} → Table K V → ℕ → ℕ → V → Expected V RemoveFailed × Table K V
taken t p zero v = (
  value v,
  record t { bucket = update t.bucket p Bucket.tombstone; load = u64 (t.load + 2 ^ 64 - 1) },
)
taken t p (suc rc) v = (unexpected RemoveFailed.guard_protecting, t)

-- One round of `remove_from` at a filled bucket.
module _ {ℓ} {K V : Type ℓ} ⦃key : HashKey K⦄ (t : Table K V) (k : K) (n i : ℕ) where
  remove_same :
      (rc : ℕ) (k' : K) (v : V)
      → t.bucket (probe t.size k i) ≡ Bucket.filled rc k' v
      → k' ≡ k
      → remove_from t k (suc n) i ≡ taken t (probe t.size k i) rc v
  unfolding remove_from
  remove_same zero k' v e same = rw (e, remove_from, if_pos (key.equal k' k) same)
  remove_same (suc rc) k' v e same = rw (e, remove_from, if_pos (key.equal k' k) same)

  remove_other :
      (rc : ℕ) (k' : K) (v : V)
      → t.bucket (probe t.size k i) ≡ Bucket.filled rc k' v
      → k' ≢ k
      → remove_from t k (suc n) i ≡ remove_from t k n (i + 1)
  unfolding remove_from
  remove_other zero k' v e other = rw (e, remove_from, if_neg (key.equal k' k) other)
  remove_other (suc rc) k' v e other = rw (e, remove_from, if_neg (key.equal k' k) other)

module _ {ℓ} {K V : Type ℓ} ⦃key : HashKey K⦄ (t : Table K V) (k : K) where
  -- The results of `do_remove` on a table that no other call is working on.
  pub data Removed : Expected V RemoveFailed × Table K V → Type ℓ where
    removed :
        (v : V)
        → Holds t.size t.bucket k v
        → (t' : Table K V) → t'.size ≡ t.size
        → t'.load + 1 ≡ t.load
        → Inv t'
        → ((k' : K) (v' : V)
            → Holds t'.size t'.bucket k' v' ↔ ((k ≢ k') × Holds t.size t.bucket k' v'))
        → Removed (value v, t')
    guarded :
        (i rc : ℕ) (v : V)
        → i < t.size
        → t.bucket i ≡ Bucket.filled (suc rc) k v
        → Removed (unexpected RemoveFailed.guard_protecting, t)
    missing : Absent t.size t.bucket k → Removed (unexpected RemoveFailed.none, t)

  module _ (inv : Inv t) where
    module _ (i rc : ℕ) (v : V) (h : i < t.size) (e : t.bucket i ≡ Bucket.filled rc k v) where
      -- The array without the entry.
      shrunk-Holds :
          (k' : K) (v' : V)
          → Holds t.size (update t.bucket i Bucket.tombstone) k' v'
            ↔ ((k ≢ k') × Holds t.size t.bucket k' v')
      shrunk-Holds k' v' = (forth, back)
        where
          forth :
              Holds t.size (update t.bucket i Bucket.tombstone) k' v'
              → (k ≢ k') × Holds t.size t.bucket k' v'
          forth (j, rc', lt, e') = elim (ℕ_discrete i j) [
            | yes same ↦ absurd (gone_ne same e')
            | no other ↦
                let was = sym (update_ne t.bucket i j Bucket.tombstone other) ∙ e' in
                (
                  λ mine. other (
                      inv.layout.unique i j rc rc' k v v' h lt e
                        (was ∙ ap (λ x. Bucket.filled rc' x v') (sym mine))),
                  (j, rc', lt, was),
                )
          ]
            where
              gone_ne : i ≡ j → update t.bucket i Bucket.tombstone j ≡ Bucket.filled rc' k' v' → ⊥
              gone_ne same e'' =
                  let here : update t.bucket i Bucket.tombstone j ≡ Bucket.tombstone =
                    rw (← same) (update_self t.bucket i Bucket.tombstone) in
                  cc

          back :
              (k ≢ k') × Holds t.size t.bucket k' v'
              → Holds t.size (update t.bucket i Bucket.tombstone) k' v'
          back (ne, (j, rc', lt, e')) = (
            j,
            rc',
            lt,
            update_ne t.bucket i j Bucket.tombstone
                  (λ same. ne (filled_key e (ap t.bucket same ∙ e')))
                ∙ e',
          )

      shrink_load : u64 (t.load + 2 ^ 64 - 1) + 1 ≡ t.load
      shrink_load = omega (
        arith,
        inv.counted,
        count-pos is_filled t.size t.bucket i h (ap is_filled e),
        count-le is_filled t.size t.bucket,
        size-le inv,
      )

      shrunk-counted :
          u64 (t.load + 2 ^ 64 - 1) ≡ count is_filled t.size (update t.bucket i Bucket.tombstone)
      shrunk-counted = ground (
        arith,
        shrink_load,
        inv.counted,
        count-update is_filled t.size t.bucket i Bucket.tombstone h,
        ap is_filled e,
      )

    taken-Removed :
        (i rc : ℕ) (v : V)
        → i < t.size
        → t.bucket i ≡ Bucket.filled rc k v
        → Removed (taken t i rc v)
    taken-Removed i zero v h e =
        removed v (i, 0, h, e) _ refl (shrink_load i 0 v h e)
          (record {
            exponent = inv.exponent;
            power = inv.power;
            small = inv.small;
            layout =
                changed-Layout t.size t.bucket inv.layout i 0 k v h e Bucket.tombstone
                  (inr (inl refl)) (λ x. cc) (λ rc' k' v' x. cc);
            counted = shrunk-counted i 0 v h e;
          })
          (shrunk-Holds i 0 v h e)
    taken-Removed i (suc rc) v h e = guarded i rc v h e

    remove_from-Removed :
        (n i : ℕ) → i + n ≡ t.size → Passed t.size k t.bucket i → Removed (remove_from t k n i)
    unfolding remove_from
    remove_from-Removed zero i e p =
        missing (Passed-Absent t.size k t.bucket i inv.layout p (inr (omega arith)))
    remove_from-Removed (suc n) i e p =
        elim (inv.layout.settled (probe t.size k i) (probe-lt t.size k i (size-pos inv))) [
          | inl gap ↦
              rw (gap, remove_from)
                (missing (Passed-Absent t.size k t.bucket i inv.layout p (inl gap)))
          | inr (inl old) ↦
              rw (old, remove_from)
                (remove_from-Removed n (i + 1) (omega arith) (
                  Passed-suc t.size k t.bucket i p (ne_tombstone old)
                    (λ rc v. filled_ne_tombstone old)))
          | inr (inr (rc, k', v, busy)) ↦ elim (key.equal k' k) [
            | yes same ↦
                subst (λ x. Removed x) (sym (remove_same t k n i rc k' v busy same))
                  (taken-Removed (probe t.size k i) rc v (probe-lt t.size k i (size-pos inv))
                    (busy ∙ ap (λ x. Bucket.filled rc x v) same))
            | no other ↦ rw (remove_other t k n i rc k' v busy other) (
                remove_from-Removed n (i + 1) (omega arith) (
                  Passed-suc t.size k t.bucket i p (filled_ne_empty busy)
                    (λ rc' v' x. other (filled_key busy x))))
          ]
        ]

  -- On a table in order `do_remove` takes out a key that no guard protects, and only that key,
  -- refuses one that a guard protects, and reports any other as missing; the table stays in
  -- order.
  pub do_remove-Removed : Inv t → Removed (do_remove t k)
  unfolding do_remove
  do_remove-Removed inv =
      remove_from-Removed inv t.size 0 (omega arith) (Passed-zero t.size k t.bucket)
