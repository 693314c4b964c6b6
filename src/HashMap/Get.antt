-- ===== src/HashMap/Get.antt =====
-- `do_get` and the guard that it returns.
use asco.Prelude.{
  ℕ, zero, suc, ◌+◌, ◌<◌, ◌≡◌, refl, inl, inr, ap, ◌∙◌, arith, update, fun_ext, Expected, value,
  unexpected, if_pos, if_neg, value-injective, unexpected-ne-value, count-update,
}
use asco.HashMap.Errors.{GetFailed}
use asco.HashMap.Defs.{HashKey, Bucket, Table, probe, get_from, do_get, drop_guard}
use asco.HashMap.Inv.{Absent, Layout, Inv, is_filled, size-pos}
use asco.HashMap.Search.{filled_key, ne_tombstone, filled_ne_tombstone, filled_ne_empty}
use asco.HashMap.Walk.{Passed, Passed-zero, Passed-suc, Passed-Absent}
use asco.HashMap.Probe.{probe-lt}
use asco.HashMap.Change.{changed-Layout}

module _ {ℓ} {K V : Type ℓ} ⦃key : HashKey K⦄ (t : Table K V) (k : K) where
  -- The results of `do_get` on a table that no other call is working on. On a hit the bucket has
  -- one reference more.
  pub data Got : Expected ℕ GetFailed × Table K V → Type ℓ where
    found :
        (i rc : ℕ) (v : V)
        → i < t.size
        → t.bucket i ≡ Bucket.filled rc k v
        → Got (value i, record t { bucket = update t.bucket i (Bucket.filled (rc + 1) k v) })
    missing : Absent t.size t.bucket k → Got (unexpected GetFailed.none, t)

  get_from-Got :
      0 < t.size
      → Layout t.size t.bucket
      → (n i : ℕ) → i + n ≡ t.size
      → Passed t.size k t.bucket i
      → Got (get_from t k n i)
  unfolding get_from
  get_from-Got pos lay zero i e p =
      missing (Passed-Absent t.size k t.bucket i lay p (inr (omega arith)))
  get_from-Got pos lay (suc n) i e p =
      elim (lay.settled (probe t.size k i) (probe-lt t.size k i pos)) [
        | inl gap ↦ rw (gap, get_from) (missing (Passed-Absent t.size k t.bucket i lay p (inl gap)))
        | inr (inl old) ↦
            rw (old, get_from)
              (get_from-Got pos lay n (i + 1) (omega arith) (
                Passed-suc t.size k t.bucket i p (ne_tombstone old)
                  (λ rc v. filled_ne_tombstone old)))
        | inr (inr (rc, k', v, busy)) ↦ elim (key.equal k' k) [
          | yes same ↦
              rw (busy, get_from, if_pos (key.equal k' k) same, same)
                (found (probe t.size k i) rc v (probe-lt t.size k i pos)
                  (busy ∙ ap (λ x. Bucket.filled rc x v) same))
          | no other ↦
              rw (busy, get_from, if_neg (key.equal k' k) other)
                (get_from-Got pos lay n (i + 1) (omega arith) (
                  Passed-suc t.size k t.bucket i p (filled_ne_empty busy)
                    (λ rc' v' x. other (filled_key busy x))))
        ]
      ]

  -- On a table that is laid out in order `do_get` finds every key of the table, at its bucket,
  -- which then counts one reference more, and no other key.
  pub do_get-Got : 0 < t.size → Layout t.size t.bucket → Got (do_get t k)
  unfolding do_get
  do_get-Got pos lay = get_from-Got pos lay t.size 0 (omega arith) (Passed-zero t.size k t.bucket)

  Got-Inv : {r : Expected ℕ GetFailed × Table K V} → Inv t → Got r → Inv r.1
  Got-Inv inv (found i rc v h e) = record {
    exponent = inv.exponent;
    power = inv.power;
    small = inv.small;
    layout =
        changed-Layout t.size t.bucket inv.layout i rc k v h e (Bucket.filled (rc + 1) k v)
          (inr (inr (rc + 1, k, v, refl))) (λ x. cc) (λ rc' k' v' x. cc);
    counted = ground (
      arith,
      inv.counted,
      count-update is_filled t.size t.bucket i (Bucket.filled (rc + 1) k v) h,
      ap is_filled e,
    );
  }
  Got-Inv inv (missing a) = inv

  -- A table in order is in order after `do_get`.
  pub do_get-Inv : Inv t → Inv (do_get t k).1
  do_get-Inv inv = Got-Inv inv (do_get-Got (size-pos inv) inv.layout)

  pub Got-drop :
      {r : Expected ℕ GetFailed × Table K V}
      → Got r
      → (i : ℕ) → r.0 ≡ value i
      → drop_guard r.1 i ≡ t
  unfolding drop_guard
  Got-drop (found i rc v h e) j same =
      let same' : i ≡ j = value-injective same in
      ap (λ b. record t { bucket = b }) (fun_ext (λ l. ground arith))
  Got-drop (missing a) j same = absurd (unexpected-ne-value same)

  -- On a table in order a guard that `do_get` returns and that is given back leaves the table as
  -- it was before the call.
  pub do_get-drop_guard :
      Inv t → (i : ℕ) → (do_get t k).0 ≡ value i → drop_guard (do_get t k).1 i ≡ t
  do_get-drop_guard inv i h = Got-drop (do_get-Got (size-pos inv) inv.layout) i h
