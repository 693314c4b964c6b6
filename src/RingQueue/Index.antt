-- ===== src/RingQueue/Index.antt =====
-- Every index below `size` has a place of its own in the packs.
use native.Mathlib.Nat.{
  div-add-mod, mod-lt, div-lt_iff_lt-mul, lt-mul-div-succ, mul-suc, mul-zero, mul_comm,
}
use asco.Prelude.{ℕ, zero, suc, ◌+◌, ◌-◌, ◌*◌, ◌≤◌, ◌<◌, ◌≡◌, arith, ap}
use asco.RingQueue.Defs.{pack_count, pack_index, slot_index}

module _ (size per_pack : ℕ) (some_pack : 0 < per_pack) where
  -- The packs have room for every slot.
  room : size ≤ per_pack * pack_count size per_pack
  room = omega (
    arith,
    lt-mul-div-succ (size + per_pack - 1) some_pack,
    mul-suc per_pack (pack_count size per_pack),
  )

  packs-pos : 0 < size → 0 < pack_count size per_pack
  packs-pos h =
      elim (pack_count size per_pack) as (λ c. size ≤ per_pack * c → 0 < c) [
        | zero ↦ λ le. omega (arith, mul-zero per_pack)
        | suc c ↦ λ le. omega arith
      ]
        room

  -- For an index below the size, and packs of at least one place, `at` and `state_at` stay
  -- inside the packs.
  pub pack-lt :
      (index : ℕ)
      → index < size
      → (pack_index size per_pack index < pack_count size per_pack)
        × (slot_index size per_pack index < per_pack)
  pack-lt index h = (
    mod-lt index (packs-pos (omega arith)),
    (div-lt_iff_lt-mul (packs-pos (omega arith))).1
        (omega (arith, room, mul_comm per_pack (pack_count size per_pack))),
  )

  -- With packs of at least one place `at` and `state_at` send no two indices to one place.
  pub pack_injective :
      (i j : ℕ)
      → pack_index size per_pack i ≡ pack_index size per_pack j
      → slot_index size per_pack i ≡ slot_index size per_pack j
      → i ≡ j
  pack_injective i j p s = omega (
    arith,
    p,
    div-add-mod i (pack_count size per_pack),
    div-add-mod j (pack_count size per_pack),
    ap (λ (x : ℕ). pack_count size per_pack * x) s,
  )
