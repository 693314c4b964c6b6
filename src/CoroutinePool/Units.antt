-- ===== src/CoroutinePool/Units.antt =====
-- The sizes fit each other.
use native.Mathlib.Nat.{mod-eq_of_lt}
use asco.Prelude.{ℕ, ◌+◌, ◌-◌, ◌*◌, ◌^◌, ◌≤◌, ◌<◌, ◌≡◌, arith, refl}
use asco.Murmur.{u64}
use asco.CoroutinePool.{needed_size, needed_units, list_index, block_unit, max_object_size}

-- For a frame of `n` bytes that the free lists serve, with `n + 15` below 2 ^ 64, its list is
-- one of the 63, list `i` holds runs of `i + 1` units, and the frame ends before the last 8
-- bytes of its run, where the pointer to its block is.
pub units_lem :
    (n : ℕ)
    → n + 15 < 2 ^ 64
    → needed_size n ≤ max_object_size - block_unit
    → (list_index (needed_size n) < 63)
      × (needed_units (needed_size n) ≡ list_index (needed_size n) + 1)
      × (n + 8 ≤ needed_units (needed_size n) * block_unit)
units_lem n small fits =
    let plain : u64 (n + 8 + 7) ≡ n + 8 + 7 = mod-eq_of_lt (omega arith) in
    (omega (arith, plain), refl, omega (arith, plain))
