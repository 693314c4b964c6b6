-- ===== src/Buffer.antt =====
-- asco/io/buffer.h: a growing array of bytes with a cursor behind the last byte written.
-- The allocator is a parameter: `allocate` gives the bytes that the memory it hands out happens to
-- hold, for each size. Addresses count from the start of that memory.
pub mod Bytes
pub mod Push
pub mod Reserve
mod Examples
use asco.Prelude.{
  ℕ, zero, suc, ◌+◌, ◌-◌, ◌^◌, ◌≤◌, min, ◌≡◌, Option, none, some, List, [], ◌∷◌, length, update,
  leb, ◌==◌, if◌then◌else◌,
}
use asco.Murmur.{u64}
use asco.Buffer.Bytes.{take, write_at}

-- `m_data` is `none` for the null pointer.
pub record Buffer : Type 0 where
  pub m_data : Option (ℕ → ℕ)
  pub m_size : ℕ
  pub m_cursor : ℕ

abbrev pub cleared : Buffer
cleared = record { m_data = none; m_size = 0; m_cursor = 0 }

-- `m_size - m_cursor`
abbrev pub remaining : Buffer → ℕ
remaining b = u64 (b.m_size + 2 ^ 64 - b.m_cursor)

-- The move constructor: the new buffer, and what is left of the old one.
abbrev pub move : Buffer → Buffer × Buffer
move b = (b, cleared)

module _ (allocate : ℕ → ℕ → ℕ) where
  -- `buffer(size, allocator)`
  abbrev pub sized : ℕ → Buffer
  sized n = record { m_data = some (allocate n); m_size = n; m_cursor = 0 }

  -- `buffer(string, allocator)`
  abbrev pub from_string : List ℕ → Buffer
  from_string xs = record {
    m_data = some (write_at (allocate (length xs)) 0 xs);
    m_size = length xs;
    m_cursor = length xs;
  }

  unfoldable pub try_advance : Buffer → ℕ → ℕ × Buffer
  try_advance b count =
      if b.m_size == 0
      then (count, record { m_data = some (allocate count); m_size = count; m_cursor = count })
      else (let by = min count (remaining b) in (by, record b { m_cursor = u64 (b.m_cursor + by) }))

  -- `none`: the copy writes through the null pointer.
  unfoldable pub push : Buffer → List ℕ → Option (ℕ × Buffer)
  push b xs =
      let (size, b') = try_advance b (length xs) in
      elim b'.m_data [
        | some bytes ↦
            some (size, record b' { m_data = some (write_at bytes b.m_cursor (take size xs)) })
        | none ↦ none
      ]

  -- The new memory, with what the old one held below the cursor.
  abbrev pub moved_data : Buffer → ℕ → ℕ → ℕ
  moved_data b n = elim b.m_data [
    | some bytes ↦ λ i. if leb (suc i) b.m_cursor then bytes i else allocate n i
    | none ↦ allocate n
  ]

  unfoldable pub reserve : Buffer → ℕ → Buffer
  reserve b n =
      if leb n (remaining b)
      then b
      else (let new_size = u64 (b.m_cursor + n) in
          record b { m_data = some (moved_data b new_size); m_size = new_size })
