-- ===== src/Timer/Ids.antt =====
-- Sets of timer ids, by the equality of ids.
use asco.Prelude.{
  ◌≡◌, ◌≢◌, sym, ◌∙◌, arith, ◌↔◌, ◌⊎◌, inl, inr, true, false, List, [], ◌∷◌, Bool-cases,
}
use asco.Timer.{TimerId, same_id, contains, erase}

abbrev pub Mem : TimerId → List TimerId → Type 0
Mem id [] = ⊥
Mem id (x ∷ xs) = (x ≡ id) ⊎ Mem id xs

pub ids_equal : (a b : TimerId) → same_id a b ≡ true → a ≡ b
ids_equal a b h = ground arith

pub ids_differ : (a b : TimerId) → same_id a b ≡ false → a ≢ b
ids_differ a b h e = ground arith

pub contains-Mem : (r : List TimerId) (id : TimerId) → contains r id ≡ true → Mem id r
unfolding contains
contains-Mem [] id h = absurd cc
contains-Mem (x ∷ r) id h = elim (Bool-cases (same_id x id)) [
  | inl same ↦ inl (ids_equal x id same)
  | inr other ↦ inr (contains-Mem r id (ground arith))
]

pub contains-not : (r : List TimerId) (id : TimerId) → contains r id ≡ false → Mem id r → ⊥
unfolding contains
contains-not [] id h m = m
contains-not (x ∷ r) id h (inl same) = ids_differ x id (ground arith) same
contains-not (x ∷ r) id h (inr later) = contains-not r id (ground arith) later

pub erase-Mem : (r : List TimerId) (id x : TimerId) → Mem x (erase r id) ↔ (Mem x r × (x ≢ id))
unfolding erase
erase-Mem [] id x = (λ m. absurd m, λ p. p.0)
erase-Mem (y ∷ r) id x = elim (Bool-cases (same_id y id)) [
  | inl same ↦
      let gone : y ≡ id = ids_equal y id same in
      rw same (
        λ m. (inr ((erase-Mem r id x).0 m).0, ((erase-Mem r id x).0 m).1),
        λ p. elim p.0 [
          | inl here ↦ absurd (p.1 (sym here ∙ gone))
          | inr there ↦ (erase-Mem r id x).1 (there, p.1)
        ],
      )
  | inr other ↦ rw other (
    λ m. elim m [
      | inl here ↦ (inl here, λ e. ids_differ y id other (here ∙ e))
      | inr there ↦ (inr ((erase-Mem r id x).0 there).0, ((erase-Mem r id x).0 there).1)
    ],
    λ p. elim p.0 [ inl here ↦ inl here | inr there ↦ inr ((erase-Mem r id x).1 (there, p.1)) ],
  )
]
