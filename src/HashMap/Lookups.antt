-- ===== src/HashMap/Lookups.antt =====
-- `remove`, `get` and `contains`: when they return, and what.
use asco.Prelude.{
  ℕ, zero, suc, ◌+◌, ◌<◌, ◌≡◌, refl, ◌≢◌, ◌⊎◌, inl, inr, ◌↔◌, ap, ◌∙◌, sym, Bool, true, false,
  update, Option, none, some, Expected, value, unexpected,
}
use asco.SpinRwLock.Alone.{try_read, drop_read}
use asco.HashMap.Errors.{RemoveFailed, GetFailed}
use asco.HashMap.Defs.{HashKey, Bucket, Table, do_remove, do_get}
use asco.HashMap.Inv.{size-pos}
use asco.HashMap.Remove.{Removed, removed, guarded, missing, do_remove-Removed}
use asco.HashMap.Get.{Got, found, do_get-Got, Got-drop}
use asco.HashMap.Get
use asco.HashMap.Api.{
  HashMap, try_remove, try_get, try_contains, answer_contains, remove, get, contains,
}
use asco.HashMap.Calls.{Quiet, Has}

module _ {ℓ} {K V : Type ℓ} ⦃key : HashKey K⦄ (s : HashMap K V) (q : Quiet s) (k : K) where
  same : s ≡ record { lock = 0; table = s.table }
  same = ap (λ l. record { lock = l; table = s.table }) q.unlocked

  abbrev pub Taken : V → HashMap K V → Type ℓ
  Taken v s' = Quiet s' × Has s k v × ((k' : K) (v' : V) → Has s' k' v' ↔ ((k ≢ k') × Has s k' v'))

  -- What `remove` returns.
  abbrev pub Removal : ((n : ℕ) → Option (Option V × HashMap K V)) → Type ℓ
  Removal run =
      ((v : V) × (s' : HashMap K V) × ((n : ℕ) → run (suc n) ≡ some (some v, s')) × Taken v s')
      ⊎ ((((n : ℕ) → run (suc n) ≡ some (none, s)) × ((v : V) → ¬ Has s k v))
          ⊎ (((n : ℕ) → run n ≡ none)
              × ((i rc : ℕ) × (v : V) × (i < s.table.size)
                  × (s.table.bucket i ≡ Bucket.filled (suc rc) k v))))

  try_remove_quiet :
      {r : Expected V RemoveFailed × Table K V}
      → do_remove s.table k ≡ r
      → try_remove s k ≡ (r.0, record { lock = 0; table = r.1 })
  unfolding try_remove try_read drop_read
  try_remove_quiet e = rw (q.unlocked, e) refl

  forever :
      do_remove s.table k ≡ (unexpected RemoveFailed.guard_protecting, s.table)
      → (n : ℕ) → remove n s k ≡ none
  unfolding remove
  forever e zero = refl
  forever e (suc n) =
      rw (remove, ap (λ x. x.0) (try_remove_quiet e), ap (λ x. x.1) (try_remove_quiet e))
        (ap (λ x. remove n x k) (sym same) ∙ forever e n)

  remove_round :
      {r : Expected V RemoveFailed × Table K V}
      → do_remove s.table k ≡ r
      → Removed s.table k r
      → Removal (λ n. remove n s k)
  unfolding remove
  remove_round e (removed v h t' size load inv iff) = inl (
    v,
    record { lock = 0; table = t' },
    (λ n. rw (remove, ap (λ x. x.0) (try_remove_quiet e), ap (λ x. x.1) (try_remove_quiet e)) refl),
    (record { unlocked = refl; inv = inv }, h, iff),
  )
  remove_round e (guarded i rc v h x) = inr (inr (forever e, (i, rc, v, h, x)))
  remove_round e (missing a) = inr (
      inl (
        (λ n.
            rw (remove, ap (λ x. x.0) (try_remove_quiet e), ap (λ x. x.1) (try_remove_quiet e))
              (ap (λ x. some (none, x)) (sym same))),
        (λ v (i, rc, lt, x). a i rc v lt x),
      ))

  -- On a table in order, with the structure lock free, `remove` takes out the entry of the key
  -- in its first round, or finds in its first round that there is none, or, when a guard
  -- protects the entry, never returns while it runs alone.
  pub remove_lem : Removal (λ n. remove n s k)
  remove_lem = remove_round refl (do_remove-Removed s.table k q.inv)

  try_get_quiet :
      {r : Expected ℕ GetFailed × Table K V}
      → do_get s.table k ≡ r
      → try_get s k ≡ (r.0, record { lock = 0; table = r.1 })
  unfolding try_get try_read drop_read
  try_get_quiet e = rw (q.unlocked, e) refl

  -- What `get` returns.
  abbrev pub Fetched : ((n : ℕ) → Option (Option ℕ × HashMap K V)) → Type ℓ
  Fetched run =
      ((i rc : ℕ) × (v : V) × (i < s.table.size)
        × (s.table.bucket i ≡ Bucket.filled rc k v)
        × ((n : ℕ)
            → run (suc n)
              ≡ some (
                some i,
                record {
                  lock = 0;
                  table = record s.table {
                    bucket = update s.table.bucket i (Bucket.filled (rc + 1) k v);
                  };
                },
              )))
      ⊎ (((n : ℕ) → run (suc n) ≡ some (none, s)) × ((v : V) → ¬ Has s k v))

  get_round :
      {r : Expected ℕ GetFailed × Table K V}
      → do_get s.table k ≡ r
      → Got s.table k r
      → Fetched (λ n. get n s k)
  unfolding get
  get_round e (found i rc v h x) = inl (
    i,
    rc,
    v,
    h,
    x,
    λ n. rw (get, ap (λ x. x.0) (try_get_quiet e), ap (λ x. x.1) (try_get_quiet e)) refl,
  )
  get_round e (Get.missing a) = inr (
    (λ n.
        rw (get, ap (λ x. x.0) (try_get_quiet e), ap (λ x. x.1) (try_get_quiet e))
          (ap (λ x. some (none, x)) (sym same))),
    (λ v (i, rc, lt, x). a i rc v lt x),
  )

  -- On a table in order, with the structure lock free, `get` returns in its first round: a guard
  -- on the bucket of the key, which then counts one reference more, or the guard that holds
  -- nothing when the table has no such key.
  pub get_lem : Fetched (λ n. get n s k)
  get_lem = get_round refl (do_get-Got s.table k (size-pos q.inv) q.inv.layout)

  -- The answer of `contains`, with the table as it was.
  answer :
      {r : Expected ℕ GetFailed × Table K V}
      → Got s.table k r
      → (b : Bool) × (answer_contains r ≡ (value b, s.table)) × ((b ≡ true) ↔ ((v : V) × Has s k v))
  unfolding answer_contains
  answer (found i rc v h x) = (
    true,
    ap (λ t. (value true, t)) (Got-drop s.table k (found i rc v h x) i refl),
    ((λ _. (v, (i, rc, h, x))), (λ _. refl)),
  )
  answer (Get.missing a) =
      (false, refl, ((λ no. cc), (λ (v, (i, rc, lt, x)). absurd (a i rc v lt x))))

  try_contains_quiet :
      {b : Bool}
      → answer_contains (do_get s.table k) ≡ (value b, s.table)
      → try_contains s k ≡ (value b, record { lock = 0; table = s.table })
  unfolding try_contains try_read drop_read
  try_contains_quiet e = rw (q.unlocked, e) refl

  -- On a table in order, with the structure lock free, `contains` answers in its first round,
  -- and leaves the table as it was: `true` just when the table has the key.
  pub contains_lem :
      (b : Bool) × ((n : ℕ) → contains (suc n) s k ≡ some (b, s))
      × ((b ≡ true) ↔ ((v : V) × Has s k v))
  unfolding contains
  contains_lem =
      let (b, e, iff) = answer (do_get-Got s.table k (size-pos q.inv) q.inv.layout) in
      (
        b,
        (λ n.
            rw
              (contains, ap (λ x. x.0) (try_contains_quiet e), ap (λ x. x.1) (try_contains_quiet e))
              (ap (λ x. some (b, x)) (sym same))),
        iff,
      )
