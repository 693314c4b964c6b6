-- ===== src/HashMap/Api.antt =====
-- asco/concurrency/hash_map.h: the public operations, each under the structure lock, when no other
-- thread comes in between.
use mathlib.Core.Option
use asco.Prelude.{ℕ, zero, suc, Bool, true, false, Option, none, some, Expected, value, unexpected}
use asco.SpinRwLock.Alone.{try_read, drop_read, try_write, drop_write}
use asco.HashMap.Errors.{InsertFailed, RemoveFailed, GetFailed}
use asco.HashMap.Defs.{
  HashKey, Table, new_table, do_insert, do_remove, do_get, do_rehash, drop_guard,
}

-- `m_lock`, and what it protects.
pub record HashMap {ℓ} (K V : Type ℓ) : Type ℓ where
  pub lock : ℕ
  pub table : Table K V

abbrev pub new {ℓ} : (K V : Type ℓ) → HashMap K V
new K V = record { lock = 0; table = new_table K V }

-- The end of a call: the structure lock is given back.
abbrev pub unlock {ℓ κ} : {K V : Type ℓ} {R : Type κ} → ℕ → R × Table K V → R × HashMap K V
unlock l (r, t) = (r, record { lock = drop_read l; table = t })

module _ {ℓ} {K V : Type ℓ} ⦃key : HashKey K⦄ where
  -- `none` is `std::unreachable`.
  unfoldable pub try_insert :
      HashMap K V → K → V → Option (Expected (Unit {0}) InsertFailed × HashMap K V)
  try_insert s k v = elim (try_read s.lock) [
    | none ↦ some (unexpected InsertFailed.rehashing, s)
    | some l ↦ Option.map (unlock l) (do_insert s.table k v)
  ]

  unfoldable pub try_remove : HashMap K V → K → Expected V RemoveFailed × HashMap K V
  try_remove s k = elim (try_read s.lock) [
    | none ↦ (unexpected RemoveFailed.rehashing, s)
    | some l ↦ unlock l (do_remove s.table k)
  ]

  unfoldable pub try_get : HashMap K V → K → Expected ℕ GetFailed × HashMap K V
  try_get s k = elim (try_read s.lock) [
    | none ↦ (unexpected GetFailed.rehashing, s)
    | some l ↦ unlock l (do_get s.table k)
  ]

  -- The guard that `do_get` returns ends with the call.
  unfoldable pub answer_contains :
      Expected ℕ GetFailed × Table K V → Expected Bool GetFailed × Table K V
  answer_contains (value i, t) = (value true, drop_guard t i)
  answer_contains (unexpected GetFailed.none, t) = (value false, t)
  answer_contains (unexpected e, t) = (unexpected e, t)

  unfoldable pub try_contains : HashMap K V → K → Expected Bool GetFailed × HashMap K V
  try_contains s k = elim (try_read s.lock) [
    | none ↦ (unexpected GetFailed.rehashing, s)
    | some l ↦ unlock l (answer_contains (do_get s.table k))
  ]

  -- `none`: `do_rehash` waits for a guard.
  unfoldable pub try_rehash : HashMap K V → Option (Bool × HashMap K V)
  try_rehash s = elim (try_write s.lock) [
    | none ↦ some (false, s)
    | some l ↦ Option.map (λ t. (true, record { lock = drop_write; table = t })) (do_rehash s.table)
  ]

  -- The loops of the calls that do not fail, for `n` rounds. `none`: none of them returned.
  unfoldable pub insert : ℕ → HashMap K V → K → V → Option (Bool × HashMap K V)
  insert zero s k v = none
  insert (suc n) s k v = elim (try_insert s k v) [
    | none ↦ none
    | some (value _, s') ↦ some (true, s')
    | some (unexpected InsertFailed.key_repeated, s') ↦ some (false, s')
    | some (unexpected InsertFailed.rehash_needed, s') ↦ elim (try_rehash s') [
      | none ↦ none
      | some (_, s'') ↦ insert n s'' k v
    ]
    | some (unexpected _, s') ↦ insert n s' k v
  ]

  unfoldable pub remove : ℕ → HashMap K V → K → Option (Option V × HashMap K V)
  remove zero s k = none
  remove (suc n) s k =
      let (r, s') = try_remove s k in
      elim r [
        | value v ↦ some (some v, s')
        | unexpected RemoveFailed.none ↦ some (none, s')
        | unexpected _ ↦ remove n s' k
      ]

  -- The bucket of the guard; `none` inside is the guard that holds nothing.
  unfoldable pub get : ℕ → HashMap K V → K → Option (Option ℕ × HashMap K V)
  get zero s k = none
  get (suc n) s k =
      let (r, s') = try_get s k in
      elim r [
        | value i ↦ some (some i, s')
        | unexpected GetFailed.none ↦ some (none, s')
        | unexpected _ ↦ get n s' k
      ]

  unfoldable pub contains : ℕ → HashMap K V → K → Option (Bool × HashMap K V)
  contains zero s k = none
  contains (suc n) s k =
      let (r, s') = try_contains s k in
      elim r [ value b ↦ some (b, s') | unexpected _ ↦ contains n s' k ]
