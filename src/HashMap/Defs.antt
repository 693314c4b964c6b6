-- ===== src/HashMap/Defs.antt =====
-- asco/concurrency/hash_map.h: buckets, probing, and the four operations that walk them.
-- A call runs from its start to its end with no other thread in between, on buckets that may be in
-- any state. The reference that a comparison of keys takes on a filled bucket is then returned
-- before the walk goes on, and every compare-exchange succeeds.
use asco.Prelude.{
  ℕ, zero, suc, ◌+◌, ◌-◌, ◌*◌, ◌%◌, ◌^◌, ite, bit_or, bit_xor, Option, none, some, Expected, value,
  unexpected, leb, if◌then◌else◌, update, Bool,
}
use mathlib.Core.Option
use asco.Murmur.{u64, mix64}
use asco.HashMap.Errors.{InsertFailed, RemoveFailed, GetFailed}

-- `std::hash<K>` and `==` on keys, which the table is given.
pub record HashKey {ℓ} (K : Type ℓ) : Type ℓ where
  pub equal : Discrete K
  pub hasher : K → ℕ

-- `bucket`: its state with its reference count, and the key and value that its raw storage holds
-- in that state. The count of the states without storage is always written as 0.
pub data Bucket {ℓ} (K V : Type ℓ) : Type ℓ where
  empty : Bucket K V
  constructing : Bucket K V
  filled : ℕ → K → V → Bucket K V
  predestructing : ℕ → K → V → Bucket K V
  destructing : Bucket K V
  tombstone : Bucket K V

-- `m_buckets` (an array of `size` buckets) and `m_load`.
pub record Table {ℓ} (K V : Type ℓ) : Type ℓ where
  pub size : ℕ
  pub bucket : ℕ → Bucket K V
  pub load : ℕ

-- The loop of `do_insert` has ended with `insert_index`, or the call returns an error.
pub data Search {ℓ} (K V : Type ℓ) : Type ℓ where
  halted : (ℕ → Bucket K V) → Option ℕ → Search K V
  failed : InsertFailed → (ℕ → Bucket K V) → Search K V

-- The constructor of `hash_map`.
abbrev pub new_table {ℓ} : (K V : Type ℓ) → Table K V
new_table K V = record { size = 64; bucket = λ i. empty; load = 0 }

module _ {ℓ} {K : Type ℓ} ⦃key : HashKey K⦄ where
  unfoldable pub hash1 : K → ℕ
  hash1 k = u64 (key.hasher k)

  unfoldable pub hash2 : K → ℕ
  hash2 k = bit_or (mix64 (bit_xor (u64 (key.hasher k)) 0xd6e8feb86659fd93)) 1

  -- The index of the `i`-th probe for `k` in a table of `size` buckets.
  unfoldable pub probe : ℕ → K → ℕ → ℕ
  probe size k i = u64 (hash1 k % size + u64 (i * (hash2 k % size))) % size

module _ {ℓ} {K V : Type ℓ} ⦃key : HashKey K⦄ where
  -- `do_insert` once `insert_index` is `j`: is the key further on? `n` probes are left.
  unfoldable pub verify : ℕ → K → ℕ → ℕ → ℕ → (ℕ → Bucket K V) → Search K V
  verify size k zero i j b = halted b (some j)
  verify size k (suc n) i j b =
      let rest = verify size k n (i + 1) j b in
      elim (b (probe size k i)) [
        | tombstone ↦ rest
        | empty ↦ halted b (some j)
        | filled rc k' v ↦
            ite (key.equal k' k) (failed InsertFailed.key_repeated (update b j tombstone)) rest
        | _ ↦ failed InsertFailed.retry (update b j tombstone)
      ]

  -- `do_insert` while `insert_index` is not set.
  unfoldable pub search_slot : ℕ → K → ℕ → ℕ → (ℕ → Bucket K V) → Search K V
  search_slot size k zero i b = halted b none
  search_slot size k (suc n) i b =
      let p = probe size k i in
      let rest = search_slot size k n (i + 1) b in
      elim (b p) [
        | empty ↦ halted (update b p constructing) (some p)
        | filled rc k' v ↦ ite (key.equal k' k) (failed InsertFailed.key_repeated b) rest
        | tombstone ↦ verify size k n (i + 1) p (update b p constructing)
        | _ ↦ failed InsertFailed.retry b
      ]

  -- The end of `do_insert`; `none` is the call of `std::unreachable`.
  unfoldable pub finish_insert :
      Table K V → K → V → Search K V → Option (Expected (Unit {0}) InsertFailed × Table K V)
  finish_insert t k v (failed e b) = some (unexpected e, record t { bucket = b })
  finish_insert t k v (halted b (some j)) =
      some (value tt, record t { bucket = update b j (filled 0 k v); load = u64 (t.load + 1) })
  finish_insert t k v (halted b none) = none

  -- `m_load / size >= 0.6` for a size that is a power of two.
  abbrev pub is_loaded : Table K V → Bool
  is_loaded t = leb (3 * t.size) (5 * t.load)

  unfoldable pub do_insert :
      Table K V → K → V → Option (Expected (Unit {0}) InsertFailed × Table K V)
  do_insert t k v =
      if is_loaded t
      then some (unexpected InsertFailed.rehash_needed, t)
      else finish_insert t k v (search_slot t.size k t.size 0 t.bucket)

  -- The loop of `do_remove` from probe `i`, with `n` probes left. The count of a bucket goes to 1
  -- when it is claimed with no guard on it, and up by 1 otherwise, and back before the loop goes on.
  unfoldable pub remove_from : Table K V → K → ℕ → ℕ → Expected V RemoveFailed × Table K V
  remove_from t k zero i = (unexpected RemoveFailed.none, t)
  remove_from t k (suc n) i =
      let p = probe t.size k i in
      let rest = remove_from t k n (i + 1) in
      elim (t.bucket p) [
        | filled zero k' v ↦
            ite (key.equal k' k)
              (
                value v,
                record t { bucket = update t.bucket p tombstone; load = u64 (t.load + 2 ^ 64 - 1) },
              )
              rest
        | filled (suc rc) k' v ↦
            ite (key.equal k' k) (unexpected RemoveFailed.guard_protecting, t) rest
        | empty ↦ (unexpected RemoveFailed.none, t)
        | constructing ↦ (unexpected RemoveFailed.retry, t)
        | predestructing rc k' v ↦ (unexpected RemoveFailed.retry, t)
        | _ ↦ rest
      ]

  unfoldable pub do_remove : Table K V → K → Expected V RemoveFailed × Table K V
  unfolding remove_from
  do_remove t k = remove_from t k t.size 0

  -- The loop of `do_get`. The result is the index of the bucket that the new guard points to.
  unfoldable pub get_from : Table K V → K → ℕ → ℕ → Expected ℕ GetFailed × Table K V
  get_from t k zero i = (unexpected GetFailed.none, t)
  get_from t k (suc n) i =
      let p = probe t.size k i in
      let rest = get_from t k n (i + 1) in
      elim (t.bucket p) [
        | filled rc k' v ↦
            ite (key.equal k' k)
              (value p, record t { bucket = update t.bucket p (filled (rc + 1) k' v) }) rest
        | empty ↦ (unexpected GetFailed.none, t)
        | constructing ↦ (unexpected GetFailed.retry, t)
        | predestructing rc k' v ↦ (unexpected GetFailed.retry, t)
        | _ ↦ rest
      ]

  unfoldable pub do_get : Table K V → K → Expected ℕ GetFailed × Table K V
  unfolding get_from
  do_get t k = get_from t k t.size 0

  -- `~guard`: one reference less, in whatever state the bucket is.
  unfoldable pub drop_ref : Bucket K V → Bucket K V
  drop_ref (filled rc k v) = filled (rc - 1) k v
  drop_ref (predestructing rc k v) = predestructing (rc - 1) k v
  drop_ref b = b

  unfoldable pub drop_guard : Table K V → ℕ → Table K V
  unfolding drop_ref
  drop_guard t p = record t { bucket = update t.bucket p (drop_ref (t.bucket p)) }

  -- The inner loop of `do_rehash`: the first empty bucket for the key, in the new array.
  unfoldable pub place : ℕ → K → V → ℕ → ℕ → (ℕ → Bucket K V) → ℕ → Bucket K V
  place size k v zero i b = b
  place size k v (suc n) i b =
      let p = probe size k i in
      let rest = place size k v n (i + 1) b in
      elim (b p) [ empty ↦ update b p (filled 0 k v) | _ ↦ rest ]

  -- The outer loop, over the `n` buckets of the old array from index `x`. The old array is thrown
  -- away afterwards, so the tombstones written into it are left out. `none`: the loop waits for a
  -- guard, which no other thread gives back here.
  unfoldable pub rehash_from : Table K V → ℕ → ℕ → (ℕ → Bucket K V) → Option (ℕ → Bucket K V)
  unfolding place
  rehash_from t zero x b = some b
  rehash_from t (suc n) x b =
      let wide = t.size * 2 in
      elim (t.bucket x) [
        | filled zero k v ↦ rehash_from t n (x + 1) (place wide k v wide 0 b)
        | filled (suc rc) k v ↦ none
        | _ ↦ rehash_from t n (x + 1) b
      ]

  unfoldable pub do_rehash : Table K V → Option (Table K V)
  unfolding rehash_from
  do_rehash t =
      Option.map (λ b. record t { size = t.size * 2; bucket = b })
        (rehash_from t t.size 0 (λ i. empty))
