-- ===== src/HashMap/Inv.antt =====
-- What holds of a table between the calls.
use asco.Prelude.{ℕ, suc, ◌^◌, ◌<◌, ◌≤◌, ◌≡◌, ◌≢◌, ◌⊎◌, Bool, true, false, count}
use asco.HashMap.Probe.{pow-le, pow-pos}
use asco.HashMap.Defs.{HashKey, Bucket, Table, probe}

-- No other thread is in the middle of a call on the bucket.
abbrev pub IsSettled {ℓ} : {K V : Type ℓ} → Bucket K V → Type ℓ
IsSettled {K} {V} x =
    (x ≡ Bucket.empty)
    ⊎ ((x ≡ Bucket.tombstone) ⊎ ((rc : ℕ) × (k : K) × (v : V) × (x ≡ Bucket.filled rc k v)))

abbrev pub is_filled {ℓ} : {K V : Type ℓ} → Bucket K V → Bool
is_filled (Bucket.filled rc k v) = true
is_filled _ = false

module _ {ℓ} {K V : Type ℓ} ⦃key : HashKey K⦄ where
  -- The entry `(k, v)` is in the array, wherever it stands and whoever holds a guard on it.
  abbrev pub Holds : ℕ → (ℕ → Bucket K V) → K → V → Type ℓ
  Holds size b k v = (i : ℕ) × (rc : ℕ) × (i < size) × (b i ≡ Bucket.filled rc k v)

  abbrev pub Absent : ℕ → (ℕ → Bucket K V) → K → Type ℓ
  Absent size b k = (i rc : ℕ) (v : V) → i < size → b i ≢ Bucket.filled rc k v

  -- Bucket `i` is one of the probes for `k`, and no probe before it is empty.
  pub record Reached (size : ℕ) (b : ℕ → Bucket K V) (k : K) (i : ℕ) : Type ℓ where
    pub round : ℕ
    pub in_time : round < size
    pub hits : probe size k round ≡ i
    pub no_gap : (l : ℕ) → l < round → b (probe size k l) ≢ Bucket.empty

  pub record Layout (size : ℕ) (b : ℕ → Bucket K V) : Type ℓ where
    pub settled : (i : ℕ) → i < size → IsSettled (b i)
    pub reached :
        (i rc : ℕ) (k : K) (v : V) → i < size → b i ≡ Bucket.filled rc k v → Reached size b k i
    pub unique :
        (i j rc rc' : ℕ) (k : K) (v v' : V)
        → i < size
        → j < size
        → b i ≡ Bucket.filled rc k v
        → b j ≡ Bucket.filled rc' k v'
        → i ≡ j

  pub record Inv (t : Table K V) : Type ℓ where
    pub exponent : ℕ
    pub power : t.size ≡ 2 ^ suc exponent
    pub small : exponent < 62
    pub layout : Layout t.size t.bucket
    pub counted : t.load ≡ count is_filled t.size t.bucket

  pub size-le : {t : Table K V} → Inv t → t.size ≤ 2 ^ 62
  size-le inv = rw inv.power (pow-le (suc inv.exponent) 62 inv.small)

  pub size-pos : {t : Table K V} → Inv t → 0 < t.size
  size-pos inv = rw inv.power (pow-pos (suc inv.exponent))
