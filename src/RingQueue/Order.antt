-- ===== src/RingQueue/Order.antt =====
-- The values that a storage holds, in their order.
use native.Mathlib.Nat.{mod-add-mod}
use asco.Prelude.{
  ℕ, zero, suc, ◌+◌, ◌%◌, ◌≤◌, ◌<◌, ◌≡◌, refl, ◌⊎◌, arith, ap, sym, ◌∙◌, List, [], ◌∷◌, ◌++◌,
  append_assoc, append-nil,
}
use asco.RingQueue.Defs.{Slot, Storage}

-- The slot after the `j`-th, and the `j`-th slot after the next one.
pub after : (size head j : ℕ) → ((head + j) % size + 1) % size ≡ (head + (j + 1)) % size
after size head j = mod-add-mod (head + j) size 1 ∙ ap (λ (x : ℕ). x % size) (omega arith)

pub from_next : (size head j : ℕ) → ((head + 1) % size + j) % size ≡ (head + (j + 1)) % size
from_next size head j = mod-add-mod (head + 1) size j ∙ ap (λ (x : ℕ). x % size) (omega arith)

module _ {ℓ} {T : Type ℓ} where
  -- What a slot adds to the queue.
  abbrev pub value_of : Slot T → List T
  value_of (Slot.filled v) = v ∷ []
  value_of _ = []

  -- The values in the `n` slots from the `j`-th after `head`.
  unfoldable pub queued : (size head : ℕ) → (ℕ → Slot T) → ℕ → ℕ → List T
  queued size head slot j zero = []
  queued size head slot j (suc n) =
      value_of (slot ((head + j) % size)) ++ queued size head slot (j + 1) n

  abbrev pub IsUsed : Slot T → Type ℓ
  IsUsed x = ((v : T) × (x ≡ Slot.filled v)) ⊎ (x ≡ Slot.exception)

  -- No call is going on: `used` slots from the head on are in use, and the others are empty.
  pub record Inv (s : Storage T) : Type ℓ where
    pub used : ℕ
    pub room : used < s.size
    pub head_fits : s.head < s.size
    pub tail_is : s.tail ≡ (s.head + used) % s.size
    pub in_use : (j : ℕ) → j < used → IsUsed (s.slot ((s.head + j) % s.size))
    pub free : (j : ℕ) → used ≤ j → j < s.size → s.slot ((s.head + j) % s.size) ≡ Slot.empty

  -- The values that are still to be received.
  abbrev pub contents : (s : Storage T) → Inv s → List T
  contents s inv = queued s.size s.head s.slot 0 inv.used

  pub queued-append :
      (size head : ℕ) (slot : ℕ → Slot T) (j n : ℕ)
      → queued size head slot j (suc n)
        ≡ queued size head slot j n ++ value_of (slot ((head + (j + n)) % size))
  unfolding queued
  queued-append size head slot j zero =
      append-nil _ ∙ ap (λ (i : ℕ). value_of (slot ((head + i) % size))) (omega arith)
  queued-append size head slot j (suc n) =
      ap (λ (xs : List T). value_of (slot ((head + j) % size)) ++ xs)
        (queued-append size head slot (j + 1) n
          ∙ ap (λ (i : ℕ). queued size head slot (j + 1) n ++ value_of (slot ((head + i) % size)))
              (omega arith))
      ∙ sym (append_assoc (value_of (slot ((head + j) % size))) _ _)

  -- Only the slots that it names count.
  pub queued-agree :
      (size head head' : ℕ) (slot slot' : ℕ → Slot T) (j j' n : ℕ)
      → ((i : ℕ) → i < n → slot ((head + (j + i)) % size) ≡ slot' ((head' + (j' + i)) % size))
      → queued size head slot j n ≡ queued size head' slot' j' n
  unfolding queued
  queued-agree size head head' slot slot' j j' zero same = refl
  queued-agree size head head' slot slot' j j' (suc n) same =
      let here : slot ((head + j) % size) ≡ slot' ((head' + j') % size) =
        ap (λ (i : ℕ). slot ((head + i) % size)) (omega arith)
        ∙ same 0 (omega arith)
        ∙ ap (λ (i : ℕ). slot' ((head' + i) % size)) (omega arith) in
      let rest : queued size head slot (j + 1) n ≡ queued size head' slot' (j' + 1) n =
        queued-agree size head head' slot slot' (j + 1) (j' + 1) n (λ i h.
          ap (λ (k : ℕ). slot ((head + k) % size)) (omega arith)
          ∙ same (suc i) (omega arith)
          ∙ ap (λ (k : ℕ). slot' ((head' + k) % size)) (omega arith)) in
      rw (here, rest)
