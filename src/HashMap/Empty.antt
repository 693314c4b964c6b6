-- ===== src/HashMap/Empty.antt =====
-- A new map.
use asco.Prelude.{refl, inl, sym, arith, count-zero}
use asco.HashMap.Defs.{HashKey, Bucket, new_table}
use asco.HashMap.Inv.{Inv, is_filled}
use asco.HashMap.Api.{new}
use asco.HashMap.Calls.{Quiet, Unguarded, Has}

module _ {ℓ} {K V : Type ℓ} ⦃key : HashKey K⦄ where
  new_table-Inv : Inv (new_table K V)
  new_table-Inv = record {
    exponent = 5;
    power = refl;
    small = omega arith;
    layout = record {
      settled = λ i h. inl refl;
      reached = λ i rc k v h e. absurd cc;
      unique = λ i j rc rc' k v v' hi hj ei ej. absurd cc;
    };
    counted = sym (count-zero is_filled 64 (λ i. Bucket.empty) (λ i. refl));
  }

  pub new-Quiet : Quiet (new K V)
  new-Quiet = record { unlocked = refl; inv = new_table-Inv }

  pub new-Unguarded : Unguarded (new_table K V)
  new-Unguarded i rc k v h e = absurd cc

  -- A new map is in order, and has no entry.
  pub new_lem : Quiet (new K V) × ((k : K) (v : V) → ¬ Has (new K V) k v)
  new_lem = (new-Quiet, λ k v (i, rc, lt, e). cc)
