-- ===== src/RingQueue/Defs.antt =====
-- asco/concurrency/ring_queue.h: the storage and its two ends, for one thread at a time.
-- A call runs from its start to its end with no other thread in between, on a storage that may be
-- in any state. `none` stands for a loop that never ends.
use asco.Prelude.{
  ℕ, zero, suc, ◌+◌, ◌-◌, ◌/◌, ◌%◌, Bool, Option, none, some, update, ◌==◌, if◌then◌else◌,
}

-- `slot_state`, with the value in the slot.
pub data Slot {ℓ} (T : Type ℓ) : Type ℓ where
  empty : Slot T
  constructing : Slot T
  filled : T → Slot T
  deconstructing : Slot T
  exception : Slot T

-- `storage<T, Cap>`; `size` is `Cap + 1`.
pub record Storage {ℓ} (T : Type ℓ) : Type ℓ where
  pub size : ℕ
  pub head : ℕ
  pub tail : ℕ
  pub slot : ℕ → Slot T

-- `create`
abbrev pub create {ℓ} : (T : Type ℓ) → ℕ → Storage T
create T cap = record { size = cap + 1; head = 0; tail = 0; slot = λ i. empty }

-- `at` and `state_at` spread the slots over packs: the pack, and the place in it, of index `index`
-- among `size` slots with `per_pack` places in a pack.
abbrev pub pack_count : ℕ → ℕ → ℕ
pack_count size per_pack = (size + per_pack - 1) / per_pack

abbrev pub pack_index : ℕ → ℕ → ℕ → ℕ
pack_index size per_pack index = index % pack_count size per_pack

abbrev pub slot_index : ℕ → ℕ → ℕ → ℕ
slot_index size per_pack index = index / pack_count size per_pack

pub data SendResult : Type 0 where
  refused sent thrown : SendResult

pub data RecvResult {ℓ} (T : Type ℓ) : Type ℓ where
  nothing : RecvResult T
  received : T → RecvResult T
  thrown : RecvResult T

module _ {ℓ} {T : Type ℓ} where
  -- The slot after `i`.
  abbrev pub next : Storage T → ℕ → ℕ
  next s i = (i + 1) % s.size

  -- `try_send`; `throws` tells whether the constructor of `T` throws. With no other thread, a slot at
  -- the tail that is not empty makes the call try again for ever.
  unfoldable pub try_send : Storage T → T → Bool → Option (SendResult × Storage T)
  try_send s v throws =
      if next s s.tail == s.head then some (SendResult.refused, s) else elim (s.slot s.tail) [
        | empty ↦ some (
            if throws
            then (
              SendResult.thrown,
              record s { slot = update s.slot s.tail exception; tail = next s s.tail },
            )
            else (
              SendResult.sent,
              record s { slot = update s.slot s.tail (filled v); tail = next s s.tail },
            ))
        | _ ↦ none
      ]

  -- `try_recv`, for `n` rounds; `throws` tells whether moving the value out throws. A head that is
  -- neither filled nor waiting for a writer is passed over within a round, which then ends if the
  -- tail comes next; if not, the head is read again, and with no other thread it has not moved.
  unfoldable pub try_recv : ℕ → Storage T → Bool → Option (RecvResult T × Storage T)
  try_recv zero s throws = none
  try_recv (suc n) s throws =
      if s.head == s.tail then some (RecvResult.nothing, s) else elim (s.slot s.head) [
        | filled v ↦
            let s' = record s { slot = update s.slot s.head empty; head = next s s.head } in
            some (if throws then (RecvResult.thrown, s') else (RecvResult.received v, s'))
        | exception ↦
            try_recv n (record s { slot = update s.slot s.head empty; head = next s s.head }) throws
        | constructing ↦ some (RecvResult.nothing, s)
        | _ ↦ if next s s.head == s.tail then some (RecvResult.nothing, s) else none
      ]
