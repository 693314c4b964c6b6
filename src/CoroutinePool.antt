-- ===== src/CoroutinePool.antt =====
-- asco/core/mm/coroutine_pool.h and coroutine_pool.cpp: the memory of coroutine frames, in free lists by
-- size over blocks of 64-byte units. An address is a block's number and a unit in it. Allocations of
-- the memory resources below do not fail.
pub mod Units
pub mod Blocks
mod Examples
use asco.Prelude.{
  ℕ, zero, suc, ◌+◌, ◌-◌, ◌*◌, ◌/◌, ◌^◌, Bool, Option, none, some, List, [], ◌∷◌, length, update,
  ltb, leb, ◌==◌, if◌then◌else◌,
}
use asco.Murmur.{u64}

abbrev pub block_unit : ℕ
block_unit = 64

abbrev pub max_object_size : ℕ
max_object_size = 4096

abbrev pub giveback_threshold : ℕ
giveback_threshold = 1024

-- The size of a frame with the pointer to its block behind it, rounded up to 8.
abbrev pub needed_size : ℕ → ℕ
needed_size n = u64 (n + 8 + 7) / 8 * 8

abbrev pub needed_units : ℕ → ℕ
needed_units n = u64 (n + 2 ^ 64 - 1) / block_unit + 1

-- `(n - 1) / block_unit`, the free list for `n` bytes
abbrev pub list_index : ℕ → ℕ
list_index n = u64 (n + 2 ^ 64 - 1) / block_unit

pub record Block : Type 0 where
  pub unit_count : ℕ
  pub allocating_index : ℕ
  pub gaveback_unit_count : ℕ

-- `block::block`
abbrev pub new_block : ℕ → Block
new_block block_count = record {
  unit_count = max_object_size * block_count / block_unit - 1;
  allocating_index = 0;
  gaveback_unit_count = 0;
}

-- `block::allocate`: the first unit, or none.
unfoldable pub block_allocate : Block → ℕ → Option ℕ × Block
block_allocate b n = if ltb b.unit_count (b.allocating_index + needed_units n) then (none, b) else (
  some b.allocating_index,
  record b { allocating_index = b.allocating_index + needed_units n },
)

-- `block::deallocate`
abbrev pub block_deallocate : Block → ℕ → Block
block_deallocate b n = record b { gaveback_unit_count = b.gaveback_unit_count + needed_units n }

abbrev pub can_free : Block → Bool
can_free b = b.gaveback_unit_count == b.unit_count

-- The loop over `blocks_list` in `allocate`; a block is its number and its state.
unfoldable pub scan : ℕ → List (ℕ × Block) → Option (ℕ × ℕ) × List (ℕ × Block)
scan n [] = (none, [])
scan n ((id, b) ∷ blocks) =
    let (got, b') = block_allocate b n in
    let (found, blocks') = scan n blocks in
    elim got [
      | some unit ↦ (some (id, unit), (id, b') ∷ blocks)
      | none ↦ (found, if can_free b then blocks' else (id, b) ∷ blocks')
    ]

-- `coroutine_pool`; `next_id` numbers the blocks.
pub record Pool : Type 0 where
  pub freelist : ℕ → List (ℕ × ℕ)
  pub blocks_list : List (ℕ × Block)
  pub next_id : ℕ
  pub block_allocate_exp : ℕ
  pub allocate_count : ℕ
  pub block_miss_count : ℕ

unfoldable pub update_block_allocate_exp : Pool → Pool
update_block_allocate_exp s =
    if s.block_miss_count == 0
    then s
    else if leb (s.allocate_count / s.block_miss_count) 2
    then record s { block_allocate_exp = s.block_allocate_exp + 1 }
    else record s { block_allocate_exp = s.block_allocate_exp - 1 }

-- `allocate` once no block of the list has room: a new block at the front of the list.
unfoldable pub allocate_new : Pool → ℕ → Option (ℕ × ℕ) × Pool
allocate_new s n =
    let s' = update_block_allocate_exp (record s { block_miss_count = s.block_miss_count + 1 }) in
    let (got, b) = block_allocate (new_block (2 ^ s'.block_allocate_exp)) n in
    (
      elim got [ some unit ↦ some (s'.next_id, unit) | none ↦ none ],
      record s' { blocks_list = (s'.next_id, b) ∷ s'.blocks_list; next_id = s'.next_id + 1 },
    )

-- `allocate` of a size that the free lists serve, already rounded up.
unfoldable pub allocate : Pool → ℕ → Option (ℕ × ℕ) × Pool
allocate s n =
    let s₁ = record s { allocate_count = s.allocate_count + 1 } in
    elim (s.freelist (list_index n)) [
      | addr ∷ rest ↦ (
        some addr,
        update_block_allocate_exp (record s₁ { freelist = update s.freelist (list_index n) rest }),
      )
      | [] ↦
          let (found, blocks) = scan n s.blocks_list in
          let s₂ = record s₁ { blocks_list = blocks } in
          elim found [ some addr ↦ (some addr, s₂) | none ↦ allocate_new s₂ n ]
    ]

-- `deallocate` of a size that the free lists serve; a full list gives the units back to their block.
unfoldable pub give_back : ℕ → ℕ → List (ℕ × Block) → List (ℕ × Block)
give_back id n [] = []
give_back id n ((id', b) ∷ blocks) =
    let rest = give_back id n blocks in
    if id' == id then (id', block_deallocate b n) ∷ blocks else (id', b) ∷ rest

unfoldable pub deallocate : Pool → ℕ × ℕ → ℕ → Pool
deallocate s addr n =
    if leb (length (s.freelist (list_index n))) giveback_threshold
    then record s { freelist = update s.freelist (list_index n) (addr ∷ s.freelist (list_index n)) }
    else record s { blocks_list = give_back addr.0 n s.blocks_list }
