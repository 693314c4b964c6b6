-- ===== src/File/Seek.antt =====
-- Where `seek` leaves the file pointer.
use native.Mathlib.Nat.{mod-eq_of_lt}
use asco.Prelude.{
  inl, inr, ℕ, zero, suc, ◌+◌, ◌-◌, ◌≡◌, refl, arith, ap, sym, ◌∙◌, true, false, ltb, if◌then◌else◌,
  some, none, Bool-cases, ltb→lt, lt→ltb, ◌≤◌, ◌<◌, ◌^◌, value,
}
use asco.Murmur.{u64}
use asco.File.{
  File, ℤ, SeekMode, Ending, sub_nat, neg, is_ptrdiff, ptrdiff, from_end, sought, seek, transfer,
}

-- The place that a seek asks for, brought back into the file where it lies before its start, and to the
-- end of the file where it lies behind the end that it is counted from.
abbrev pub place : ℕ → ℤ → SeekMode → ℕ → ℕ
place p (ℤ.pos n) SeekMode.set size = n
place p (ℤ.negsuc n) SeekMode.set size = 0
place p (ℤ.pos n) SeekMode.current size = p + n
place p (ℤ.negsuc n) SeekMode.current size = p - (n + 1)
place p (ℤ.pos n) SeekMode.end size = size
place p (ℤ.negsuc n) SeekMode.end size = size - (n + 1)

-- Where no operation of `seek` overflows.
abbrev pub Defined : ℕ → ℤ → SeekMode → Type 0
Defined p offset SeekMode.set = Unit
Defined p (ℤ.pos n) SeekMode.current = p + n < 2 ^ 63
Defined p (ℤ.negsuc n) SeekMode.current = n + 1 < 2 ^ 63
Defined p (ℤ.pos n) SeekMode.end = Unit
Defined p (ℤ.negsuc n) SeekMode.end = n + 1 < 2 ^ 63

sub_nat_le : (x y : ℕ) → y ≤ x → sub_nat x y ≡ ℤ.pos (x - y)
sub_nat_le x zero h = ap ℤ.pos (omega arith)
sub_nat_le zero (suc y) h = absurd (omega arith)
sub_nat_le (suc x) (suc y) h = sub_nat_le x y (omega arith) ∙ ap ℤ.pos (omega arith)

never : (n : ℕ) → ltb n 0 ≡ false
never n = ground arith

always : (n : ℕ) → ltb 0 (suc n) ≡ true
always n = ground arith

ge→ltb : (x y : ℕ) → y ≤ x → ltb x y ≡ false
ge→ltb x y h = ground arith

ptrdiff_pos : (n : ℕ) → n < 2 ^ 63 → ptrdiff (ℤ.pos n) ≡ some (ℤ.pos n)
ptrdiff_pos n h = rw (lt→ltb n (2 ^ 63) h) refl

-- A place before or after `p` by a negative offset, once the offset's negation is known to fit.
back_by :
    (p n : ℕ)
    → p < 2 ^ 63
    → (if ltb p (suc n) then some (ℤ.pos 0) else ptrdiff (sub_nat p (suc n)))
      ≡ some (ℤ.pos (p - (n + 1)))
back_by p n small = elim (Bool-cases (ltb p (suc n))) [
  | inl under ↦ rw under (ap (λ x. some (ℤ.pos x)) (omega (arith, ltb→lt p (suc n) under)))
  | inr over ↦
      let lands : sub_nat p (suc n) ≡ ℤ.pos (p - (n + 1)) =
        sub_nat_le p (suc n) (ground arith) ∙ ap ℤ.pos (omega arith) in
      rw (over, lands) (ptrdiff_pos (p - (n + 1)) (omega arith))
]

from_end_pos : (size : ℕ) → size < 2 ^ 63 → from_end (ℤ.pos 0) size ≡ some (ℤ.pos size)
unfolding from_end
from_end_pos size hs =
    let same : 0 + size ≡ size = omega arith in
    rw (lt→ltb size (2 ^ 63) hs, never size, same) (ptrdiff_pos size hs)

sought_lem :
    (p : ℕ) (offset : ℤ) (mode : SeekMode) (size : ℕ)
    → p < 2 ^ 63
    → size < 2 ^ 63
    → Defined p offset mode
    → sought (ℤ.pos p) offset mode size ≡ some (ℤ.pos (place p offset mode size))
unfolding sought from_end
sought_lem p (ℤ.pos n) SeekMode.set size hp hs d = rw (never n) refl
sought_lem p (ℤ.negsuc n) SeekMode.set size hp hs d = refl
sought_lem p (ℤ.pos n) SeekMode.current size hp hs d = rw (never n) (ptrdiff_pos (p + n) d)
sought_lem p (ℤ.negsuc n) SeekMode.current size hp hs d =
    rw (ptrdiff_pos (suc n) (omega arith)) (back_by p n hp)
sought_lem p (ℤ.pos zero) SeekMode.end size hp hs d = from_end_pos size hs
sought_lem p (ℤ.pos (suc n)) SeekMode.end size hp hs d =
    rw (sought, always n) (from_end_pos size hs)
sought_lem p (ℤ.negsuc n) SeekMode.end size hp hs d =
    rw (from_end, ptrdiff_pos (suc n) (omega arith), lt→ltb size (2 ^ 63) hs) (back_by size n hs)

ptrdiff_over : (n : ℕ) → 2 ^ 63 ≤ n → ptrdiff (ℤ.pos n) ≡ none
ptrdiff_over n h = rw (ge→ltb n (2 ^ 63) h) refl

from_end_over : (n size : ℕ) → 2 ^ 63 ≤ suc n → from_end (ℤ.negsuc n) size ≡ none
unfolding from_end
from_end_over n size far = rw (from_end, ptrdiff_over (suc n) far) refl

-- An operation overflows everywhere else.
sought_over :
    (p : ℕ) (offset : ℤ) (mode : SeekMode) (size : ℕ)
    → (Defined p offset mode → ⊥)
    → sought (ℤ.pos p) offset mode size ≡ none
unfolding sought
sought_over p offset SeekMode.set size d = absurd (d tt)
sought_over p (ℤ.pos n) SeekMode.current size d =
    let far : 2 ^ 63 ≤ p + n = omega (arith, d) in rw (never n) (ptrdiff_over (p + n) far)
sought_over p (ℤ.negsuc n) SeekMode.current size d =
    let far : 2 ^ 63 ≤ suc n = omega (arith, d) in rw (ptrdiff_over (suc n) far) refl
sought_over p (ℤ.pos n) SeekMode.end size d = absurd (d tt)
sought_over p (ℤ.negsuc n) SeekMode.end size d =
    let far : 2 ^ 63 ≤ suc n = omega (arith, d) in from_end_over n size far

place_small :
    (p : ℕ) (offset : ℤ) (mode : SeekMode) (size : ℕ)
    → p < 2 ^ 63
    → size < 2 ^ 63
    → is_ptrdiff offset ≡ true
    → Defined p offset mode
    → place p offset mode size < 2 ^ 63
place_small p (ℤ.pos n) SeekMode.set size hp hs h d = ltb→lt n (2 ^ 63) h
place_small p (ℤ.negsuc n) SeekMode.set size hp hs h d = omega arith
place_small p (ℤ.pos n) SeekMode.current size hp hs h d = d
place_small p (ℤ.negsuc n) SeekMode.current size hp hs h d = omega arith
place_small p (ℤ.pos n) SeekMode.end size hp hs h d = hs
place_small p (ℤ.negsuc n) SeekMode.end size hp hs h d = omega arith

-- On an open file whose pointer is not negative, with an offset that is a `std::ptrdiff_t` and a file of
-- less than 2^63 bytes: `seek` leaves the pointer at a place that is not negative either and is a
-- `std::ptrdiff_t`, the one asked for, or the file's start or its end where that lies outside. Only if it
-- counts forward from the current place to 2^63 or beyond, or back by 2^63 from there or from the end, is
-- there no such place, but a signed overflow.
pub seek_lem :
    (f : File) (p : ℕ)
    → f.m_valid ≡ true
    → f.m_fptr ≡ ℤ.pos p
    → p < 2 ^ 63
    → (offset : ℤ) (mode : SeekMode) (size : ℕ) → is_ptrdiff offset ≡ true
    → size < 2 ^ 63
    → (Defined p offset mode
        → (seek f offset mode size
            ≡ Ending.leaves (record f { m_fptr = ℤ.pos (place p offset mode size) }))
          × (place p offset mode size < 2 ^ 63))
      × ((Defined p offset mode → ⊥) → seek f offset mode size ≡ Ending.overflowed)
unfolding seek
seek_lem f p valid at hp offset mode size h hs = (
  λ d. (
    rw (seek, valid, at, sought_lem p offset mode size hp hs d)
        (ap (λ b. Ending.leaves (record { m_valid = b; m_fptr = ℤ.pos (place p offset mode size) }))
          valid),
    place_small p offset mode size hp hs h d,
  ),
  λ d. rw (seek, valid, at, sought_over p offset mode size d) refl,
)

back_lem : (p n size : ℕ) → place (p + n) (neg (ℤ.pos n)) SeekMode.current size ≡ p
back_lem p zero size = omega arith
back_lem p (suc n) size = omega arith

back-Defined : (p n : ℕ) → p + n < 2 ^ 63 → Defined (p + n) (neg (ℤ.pos n)) SeekMode.current
back-Defined p zero h = omega arith
back-Defined p (suc n) h = omega arith

back-is_ptrdiff : (n : ℕ) → n < 2 ^ 63 → is_ptrdiff (neg (ℤ.pos n)) ≡ true
back-is_ptrdiff zero h = refl
back-is_ptrdiff (suc n) h = lt→ltb n (2 ^ 63) (omega arith)

-- After a read or a write of `n` bytes of an open file, which leaves its pointer below 2^63, a seek by `-n`
-- goes back to where it began.
pub transfer-seek :
    (f : File) (p n size : ℕ)
    → f.m_valid ≡ true
    → f.m_fptr ≡ ℤ.pos p
    → p + n < 2 ^ 63
    → size < 2 ^ 63
    → (f' : File) × (transfer {E = Unit {0}} f (value n) ≡ Ending.leaves f')
      × (seek f' (neg (ℤ.pos n)) SeekMode.current size ≡ Ending.leaves f)
unfolding transfer
transfer-seek f p n size valid at small hs =
    let f' : File = record f { m_fptr = ℤ.pos (p + n) } in
    let wrapped : u64 (p + n) ≡ p + n = mod-eq_of_lt (omega arith) in
    (
      f',
      rw (transfer, valid, at, wrapped, lt→ltb (p + n) (2 ^ 63) small) refl,
      ((seek_lem f' (p + n) valid refl small (neg (ℤ.pos n)) SeekMode.current size
              (back-is_ptrdiff n (omega arith)) hs).0
            (back-Defined p n small)).0
          ∙ ap (λ (x : ℤ). Ending.leaves (record f { m_fptr = x }))
              (ap ℤ.pos (back_lem p n size) ∙ sym at),
    )
