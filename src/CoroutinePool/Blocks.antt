-- ===== src/CoroutinePool/Blocks.antt =====
-- The runs of units that a block gives out.
use asco.Prelude.{
  ℕ, ◌+◌, ◌≤◌, ◌<◌, ◌≡◌, refl, ap, arith, none, some, List, [], ◌∷◌, ltb, Bool-cases, inl, inr,
  true, false,
}
use asco.CoroutinePool.{Block, needed_units, block_allocate}

-- The runs, as first unit and length, that a block gives for frames of the sizes in turn.
unfoldable pub runs : Block → List ℕ → List (ℕ × ℕ)
runs b [] = []
runs b (n ∷ sizes) =
    let (got, b') = block_allocate b n in
    let rest = runs b' sizes in elim got [ some unit ↦ (unit, needed_units n) ∷ rest | none ↦ rest ]

-- The runs follow one another between two units, and none of them overlaps another.
pub data Apart (hi : ℕ) : ℕ → List (ℕ × ℕ) → Type 0 where
  over : {lo : ℕ} → lo ≤ hi → Apart hi lo []
  next :
      {lo unit len : ℕ} {rest : List (ℕ × ℕ)}
      → lo ≤ unit
      → 0 < len
      → Apart hi (unit + len) rest
      → Apart hi lo ((unit, len) ∷ rest)

module _ (b : Block) (n : ℕ) where
  no_room :
      ltb b.unit_count (b.allocating_index + needed_units n) ≡ true → block_allocate b n ≡ (none, b)
  unfolding block_allocate
  no_room crowded = rw crowded refl

  granted :
      ltb b.unit_count (b.allocating_index + needed_units n) ≡ false
      → block_allocate b n ≡ (
        some b.allocating_index,
        record b { allocating_index = b.allocating_index + needed_units n },
      )
  unfolding block_allocate
  granted room = rw room refl

-- What a block that is not overrun gives out over time lies within its units, and no two of its
-- runs overlap.
pub runs-Apart :
    (sizes : List ℕ) (b : Block)
    → b.allocating_index ≤ b.unit_count
    → Apart b.unit_count b.allocating_index (runs b sizes)
unfolding runs
runs-Apart [] b h = over h
runs-Apart (n ∷ sizes) b h =
    elim (Bool-cases (ltb b.unit_count (b.allocating_index + needed_units n))) [
      | inl crowded ↦
          rw (runs, ap (λ r. r.0) (no_room b n crowded), ap (λ r. r.1) (no_room b n crowded))
            (runs-Apart sizes b h)
      | inr room ↦
          rw (runs, ap (λ r. r.0) (granted b n room), ap (λ r. r.1) (granted b n room))
            (next (omega arith) (omega arith) (
              runs-Apart sizes (record b { allocating_index = b.allocating_index + needed_units n })
                (ground arith)))
    ]
