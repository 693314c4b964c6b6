-- ===== src/HashMap/Examples.antt =====
-- The map on a few concrete keys.
use asco.Prelude.{
  ℕ, ◌<◌, ◌≡◌, refl, ◌↔◌, suc, some, List, length, Bool, true, ℕ_discrete, arith, update,
  count-zero, count-update, ap, ◌∙◌, sym, if_pos, if_neg, inl, inr, value,
}
use asco.Murmur.{mix64}
use asco.HashMap.Defs.{
  HashKey, Bucket, Table, probe, hash1, hash2, do_insert, do_get, do_remove, do_rehash,
}
use asco.HashMap.Inv.{Inv, is_filled, Holds}
use asco.HashMap.Calls.{Quiet, Unguarded}
use asco.HashMap.Probe.{probe_covers}
use asco.HashMap.Insert.{Inserted, do_insert-Inserted}
use asco.HashMap.Remove.{Removed, do_remove-Removed}
use asco.HashMap.Rehash.{do_rehash_lem}
use asco.HashMap.Calls.{Has}
use asco.HashMap.Destroy.{Ending, destroy, Among, destroy_lem}
use asco.HashMap.Lookups.{contains_lem}
use asco.HashMap.Api.{HashMap, contains}

instance number_key : HashKey ℕ
number_key = record { equal = ℕ_discrete; hasher = λ n. n }

abbrev no_buckets : ℕ → Bucket ℕ ℕ
no_buckets i = Bucket.empty

-- One entry in bucket 5, with `rc` guards on it.
abbrev buckets : ℕ → ℕ → Bucket ℕ ℕ
buckets rc = update no_buckets 5 (Bucket.filled rc 5 50)

abbrev one : ℕ → Table ℕ ℕ
one rc = record { size = 64; bucket = buckets rc; load = 1 }

abbrev map_one : ℕ → HashMap ℕ ℕ
map_one rc = record { lock = 0; table = one rc }

entry : (rc i rc' k v : ℕ) → buckets rc i ≡ Bucket.filled rc' k v → (i ≡ 5) × (k ≡ 5) × (rc ≡ rc')
entry rc i rc' k v e = elim (ℕ_discrete 5 i) [
  | yes same ↦
      let q : Bucket.filled rc 5 50 ≡ Bucket.filled rc' k v =
        sym (if_pos (ℕ_discrete 5 i) same _ _) ∙ e in
      (sym same, cc, cc)
  | no other ↦
      let q : Bucket.empty ≡ Bucket.filled rc' k v = sym (if_neg (ℕ_discrete 5 i) other _ _) ∙ e in
      absurd cc
]

probe_five : probe {K = ℕ} 64 5 0 ≡ 5
unfolding probe hash1 hash2 mix64 number_key
probe_five = refl

one-Inv : (rc : ℕ) → Inv (one rc)
one-Inv rc = record {
  exponent = 5;
  power = refl;
  small = omega arith;
  layout = record {
    settled = λ i h. elim (ℕ_discrete 5 i) [
      | yes same ↦ inr (inr (rc, 5, 50, if_pos (ℕ_discrete 5 i) same _ _))
      | no other ↦ inl (if_neg (ℕ_discrete 5 i) other _ _)
    ];
    reached = λ i rc' k v h e.
        let (at, mine, _) = entry rc i rc' k v e in
        record {
          round = 0;
          in_time = omega arith;
          hits = ap (λ x. probe 64 x 0) mine ∙ probe_five ∙ sym at;
          no_gap = λ l lt. absurd (omega arith);
        };
    unique = λ i j rc₁ rc₂ k v v' hi hj ei ej.
        (entry rc i rc₁ k v ei).0 ∙ sym (entry rc j rc₂ k v' ej).0;
  };
  counted = omega (
    arith,
    count-zero is_filled 64 no_buckets (λ i. refl),
    count-update is_filled 64 no_buckets 5 (Bucket.filled rc 5 50) (omega arith),
  );
}

one-Quiet : (rc : ℕ) → Quiet (map_one rc)
one-Quiet rc = record { unlocked = refl; inv = one-Inv rc }

one-Unguarded : Unguarded (one 0)
one-Unguarded i rc k v h e = sym (entry 0 i rc k v e).2

probe_covers_example : (i : ℕ) × (i < 64) × (probe {K = ℕ} 64 7 i ≡ 40)
probe_covers_example = probe_covers {K = ℕ} 5 7 (omega arith) 40 (omega arith)

do_insert-Inserted_example : Inserted (one 0) 6 60 (do_insert (one 0) 6 60)
do_insert-Inserted_example = do_insert-Inserted (one 0) 6 60 (one-Inv 0)

do_remove-Removed_example : Removed (one 0) 5 (do_remove (one 0) 5)
do_remove-Removed_example = do_remove-Removed (one 0) 5 (one-Inv 0)

contains_lem_example :
    (b : Bool) × ((n : ℕ) → contains (suc n) (map_one 1) 5 ≡ some (b, map_one 1))
    × ((b ≡ true) ↔ ((v : ℕ) × Has (map_one 1) 5 v))
contains_lem_example = contains_lem (map_one 1) (one-Quiet 1) 5

do_rehash_lem_example :
    (t' : Table ℕ ℕ) × (do_rehash (one 0) ≡ some t')
    × Inv t'
    × (t'.size ≡ 128)
    × (t'.load ≡ 1)
    × ((k v : ℕ) → Holds t'.size t'.bucket k v ↔ Holds 64 (buckets 0) k v)
unfolding one-Inv
do_rehash_lem_example = do_rehash_lem (one 0) (one-Inv 0) (omega arith) one-Unguarded

one_got : (do_get (one 1) 5).0 ≡ value 5
unfolding do_get probe hash1 hash2 mix64 number_key ℕ_discrete
one_got = refl

destroy_lem_example :
    (xs : List (ℕ × ℕ)) × (destroy (map_one 0) ≡ Ending.destroyed xs)
    × (length xs ≡ 1)
    × ((k v : ℕ) → Among (k, v) xs ↔ Holds 64 (buckets 0) k v)
destroy_lem_example = destroy_lem (map_one 0) (one-Quiet 0) one-Unguarded
