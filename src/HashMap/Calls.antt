-- ===== src/HashMap/Calls.antt =====
-- The calls that do not fail: how many rounds they take and what they do to the entries.
use asco.Prelude.{
  ℕ, suc, ◌*◌, ◌≤◌, ◌<◌, ◌≡◌, refl, ◌⊎◌, inl, inr, ◌↔◌, arith, ◌∙◌, Bool, true, false, Option, some,
  Expected, unexpected, count-le, le→leb, dec_lt,
}
use asco.SpinRwLock.Alone.{try_read, drop_read, try_write}
use asco.HashMap.Errors.{InsertFailed}
use asco.HashMap.Defs.{HashKey, Bucket, Table, do_insert, do_rehash}
use asco.HashMap.Inv.{Holds, Inv, is_filled, size-pos}
use asco.HashMap.Insert.{Inserted, needs_rehash, key_repeated, inserted, do_insert-Inserted}
use asco.HashMap.Rehash.{do_rehash_lem}
use asco.HashMap.Api.{HashMap, try_insert, try_rehash, insert}

-- Nobody is inside a call.
pub record Quiet {ℓ} {K V : Type ℓ} ⦃key : HashKey K⦄ (s : HashMap K V) : Type ℓ where
  pub unlocked : s.lock ≡ 0
  pub inv : Inv s.table

either {ℓ κ ι} : {A : Type ℓ} {B : Type κ} {C D : Type ι} → A ↔ (B ⊎ C) → C ↔ D → A ↔ (B ⊎ D)
either f g = (
  (λ a. elim (f.0 a) [ inl b ↦ inl b | inr c ↦ inr (g.0 c) ]),
  (λ x. elim x [ inl b ↦ f.1 (inl b) | inr d ↦ f.1 (inr (g.1 d)) ]),
)

-- No guard of the map is held.
abbrev pub Unguarded {ℓ} : {K V : Type ℓ} → Table K V → Type ℓ
Unguarded {K} {V} t =
    (i rc : ℕ) (k : K) (v : V) → i < t.size → t.bucket i ≡ Bucket.filled rc k v → rc ≡ 0

module _ {ℓ} {K V : Type ℓ} ⦃key : HashKey K⦄ where
  abbrev pub Has : HashMap K V → K → V → Type ℓ
  Has s k v = Holds s.table.size s.table.bucket k v

module _ {ℓ} {K V : Type ℓ} ⦃key : HashKey K⦄ (k : K) (v : V) where
  abbrev pub Repeated : HashMap K V → HashMap K V → Type ℓ
  Repeated s s' =
      Quiet s' × ((old : V) × Has s k old) × ((k' : K) (v' : V) → Has s' k' v' ↔ Has s k' v')

  abbrev pub Added : HashMap K V → HashMap K V → Type ℓ
  Added s s' =
      Quiet s'
      × ((old : V) → ¬ Has s k old)
      × ((k' : K) (v' : V) → Has s' k' v' ↔ (((k ≡ k') × (v ≡ v')) ⊎ Has s k' v'))

  abbrev pub Done : HashMap K V → Option (Bool × HashMap K V) → Type ℓ
  Done s r =
      (s' : HashMap K V) × (((r ≡ some (false, s')) × Repeated s s')
        ⊎ ((r ≡ some (true, s')) × Added s s'))

  -- A round that does not ask for a rehash is the last.
  insert_round :
      (s : HashMap K V)
      → Quiet s
      → 5 * s.table.load < 3 * s.table.size
      → {r : Option (Expected (Unit {0}) InsertFailed × Table K V)} → do_insert s.table k v ≡ r
      → Inserted s.table k v r
      → (n : ℕ) → Done s (insert (suc n) s k v)
  unfolding insert try_insert try_read drop_read
  insert_round s q room e (needs_rehash crowded) n = absurd (omega arith)
  insert_round s q room e (key_repeated _ old h) n = (
    record { lock = 0; table = s.table },
    inl (
      rw (q.unlocked, insert, try_insert, e) refl,
      (record { unlocked = refl; inv = q.inv }, (old, h), λ k' v'. (λ x. x, λ x. x)),
    ),
  )
  insert_round s q room e (inserted _ a t' size load inv iff) n = (
    record { lock = 0; table = t' },
    inr (
      rw (q.unlocked, insert, try_insert, e) refl,
      (record { unlocked = refl; inv = inv }, (λ old (i, rc, lt, x). a i rc old lt x), iff),
    ),
  )

  insert_room :
      (s : HashMap K V)
      → Quiet s
      → 5 * s.table.load < 3 * s.table.size
      → (n : ℕ) → Done s (insert (suc n) s k v)
  insert_room s q room = insert_round s q room refl (do_insert-Inserted s.table k v q.inv)

  do_insert_crowded :
      (t : Table K V)
      → 3 * t.size ≤ 5 * t.load
      → do_insert t k v ≡ some (unexpected InsertFailed.rehash_needed, t)
  unfolding do_insert
  do_insert_crowded t h = rw (le→leb (3 * t.size) (5 * t.load) h) refl

  insert_crowded :
      (s : HashMap K V)
      → Quiet s
      → 3 * s.table.size ≤ 5 * s.table.load
      → (t' : Table K V) → do_rehash s.table ≡ some t'
      → (n : ℕ) → insert (suc n) s k v ≡ insert n (record { lock = 0; table = t' }) k v
  unfolding insert try_insert try_read drop_read try_rehash try_write
  insert_crowded s q crowded t' e n =
      rw (q.unlocked, insert, try_insert, do_insert_crowded s.table crowded, try_rehash, e) refl

  -- `insert` on a table in order, with at most 2 ^ 61 buckets, with the structure lock free and
  -- no guard held, returns in two rounds at most, the first of which may double the table:
  -- `false` for a key that the table has, and `true` when the entry is added; no other entry
  -- changes.
  pub insert_lem :
      (s : HashMap K V) (q : Quiet s)
      → q.inv.exponent < 61
      → Unguarded s.table
      → (n : ℕ) → Done s (insert (suc (suc n)) s k v)
  insert_lem s q wide idle n = elim (dec_lt (5 * s.table.load) (3 * s.table.size)) [
    | yes room ↦ insert_room s q room (suc n)
    | no crowded ↦
        let (t', e, inv, size, load, same) = do_rehash_lem s.table q.inv wide idle in
        let s' : HashMap K V = record { lock = 0; table = t' } in
        let room : 5 * t'.load < 3 * t'.size = omega (
          arith,
          size,
          load,
          q.inv.counted,
          size-pos q.inv,
          count-le is_filled s.table.size s.table.bucket,
        ) in
        let (u, r) = insert_room s' (record { unlocked = refl; inv = inv }) room n in
        let first = insert_crowded s q (omega arith) t' e (suc n) in
        (
          u,
          elim r [
            | inl (e', (q', (old, h), iff)) ↦ inl (
              first ∙ e',
              (
                q',
                (old, (same k old).0 h),
                λ k' v'. (
                  (λ x. (same k' v').0 ((iff k' v').0 x)),
                  (λ x. (iff k' v').1 ((same k' v').1 x)),
                ),
              ),
            )
            | inr (e', (q', new, iff)) ↦ inr (
              first ∙ e',
              (q', (λ old h. new old ((same k old).1 h)), λ k' v'. either (iff k' v') (same k' v')),
            )
          ],
        )
  ]
