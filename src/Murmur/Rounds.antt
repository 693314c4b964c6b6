-- ===== src/Murmur/Rounds.antt =====
-- No step of the hash loses anything.
use asco.Prelude.{ℕ, ◌+◌, ◌*◌, ◌<◌, ◌≡◌, ap, arith, bit_xor}
use asco.Prelude.Bits.{xor-lt}
use asco.Murmur.{u64, mix64, rotl, scramble1, scramble2, HashVal, add_both, round, finish}
use asco.Murmur.Words.{
  word, Words, mix64-lt, mix64_injective, rotl27-lt, rotl31-lt, rotl27_injective, rotl31_injective,
  scramble1-lt, scramble2-lt, scramble1_injective, scramble2_injective, add_both-Words,
  add_both_injective, xor_injective_left, xor_injective_right,
}

times_five :
    (x y : ℕ) → x < word → y < word → u64 (x * 5 + 0x52dce729) ≡ u64 (y * 5 + 0x52dce729) → x ≡ y
times_five x y hx hy e = omega (arith, e)

times_five' :
    (x y : ℕ) → x < word → y < word → u64 (x * 5 + 0x38495ab5) ≡ u64 (y * 5 + 0x38495ab5) → x ≡ y
times_five' x y hx hy e = omega (arith, e)

-- What a round adds up.
abbrev turned : HashVal → ℕ → ℕ → HashVal
turned h a b = (rotl (bit_xor h.0 a) 27, rotl (bit_xor h.1 b) 31)

turned-Words : (h : HashVal) (a b : ℕ) → Words h → a < word → b < word → Words (turned h a b)
turned-Words h a b w ha hb = (
  rotl27-lt (bit_xor h.0 a) (xor-lt 64 h.0 a w.0 ha),
  rotl31-lt (bit_xor h.1 b) (xor-lt 64 h.1 b w.1 hb),
)

module _ (h g : HashVal) (a b a' b' : ℕ) (wh : Words h) (wg : Words g) (ha : a < word)
    (hb : b < word) (ha' : a' < word) (hb' : b' < word) where
  turned_back :
      let s = add_both (turned h a b) in
      let t = add_both (turned g a' b') in
      (u64 (s.0 * 5 + 0x52dce729) ≡ u64 (t.0 * 5 + 0x52dce729))
      → (u64 (s.1 * 5 + 0x38495ab5) ≡ u64 (t.1 * 5 + 0x38495ab5))
      → (bit_xor h.0 a ≡ bit_xor g.0 a') × (bit_xor h.1 b ≡ bit_xor g.1 b')
  turned_back e1 e2 =
      let s = add_both (turned h a b) in
      let t = add_both (turned g a' b') in
      let ws : Words s = add_both-Words (turned h a b) in
      let wt : Words t = add_both-Words (turned g a' b') in
      let same1 : s.0 ≡ t.0 = times_five s.0 t.0 ws.0 wt.0 e1 in
      let same2 : s.1 ≡ t.1 = times_five' s.1 t.1 ws.1 wt.1 e2 in
      let both =
        add_both_injective (turned h a b) (turned g a' b') (turned-Words h a b wh ha hb)
          (turned-Words g a' b' wg ha' hb') (λ i. (same1 i, same2 i)) in
      (
        rotl27_injective (bit_xor h.0 a) (bit_xor g.0 a') (xor-lt 64 h.0 a wh.0 ha)
            (xor-lt 64 g.0 a' wg.0 ha') both.0,
        rotl31_injective (bit_xor h.1 b) (bit_xor g.1 b') (xor-lt 64 h.1 b wh.1 hb)
            (xor-lt 64 g.1 b' wg.1 hb') both.1,
      )

-- A round from one state with two pairs of words.
pub round_injective_keys :
    (h : HashVal) (k1 k2 l1 l2 : ℕ)
    → Words h
    → Words (k1, k2)
    → Words (l1, l2)
    → round h k1 k2 ≡ round h l1 l2
    → (k1 ≡ l1) × (k2 ≡ l2)
unfolding round
round_injective_keys h k1 k2 l1 l2 w wk wl e =
    let both =
      turned_back h h (scramble1 k1) (scramble2 k2) (scramble1 l1) (scramble2 l2) w w
        (scramble1-lt k1) (scramble2-lt k2) (scramble1-lt l1) (scramble2-lt l2) (ap (λ p. p.0) e)
        (ap (λ p. p.1) e) in
    (
      scramble1_injective k1 l1 wk.0 wl.0 (xor_injective_left h.0 _ _ both.0),
      scramble2_injective k2 l2 wk.1 wl.1 (xor_injective_left h.1 _ _ both.1),
    )

-- A round with one pair of words from two states.
pub round_injective_state :
    (h g : HashVal) (k1 k2 : ℕ)
    → Words h
    → Words g
    → round h k1 k2 ≡ round g k1 k2
    → (h.0 ≡ g.0) × (h.1 ≡ g.1)
unfolding round
round_injective_state h g k1 k2 wh wg e =
    let both =
      turned_back h g (scramble1 k1) (scramble2 k2) (scramble1 k1) (scramble2 k2) wh wg
        (scramble1-lt k1) (scramble2-lt k2) (scramble1-lt k1) (scramble2-lt k2) (ap (λ p. p.0) e)
        (ap (λ p. p.1) e) in
    (
      xor_injective_right (scramble1 k1) h.0 g.0 both.0,
      xor_injective_right (scramble2 k2) h.1 g.1 both.1,
    )

pub round-Words : (h : HashVal) (k1 k2 : ℕ) → Words (round h k1 k2)
unfolding round
round-Words h k1 k2 = (omega arith, omega arith)

pub finish_injective :
    (h g : HashVal) (len : ℕ)
    → Words h
    → Words g
    → len < word
    → finish h len ≡ finish g len
    → (h.0 ≡ g.0) × (h.1 ≡ g.1)
unfolding finish
finish_injective h g len wh wg short e =
    let xored : (x : HashVal) → Words x → Words (bit_xor x.0 len, bit_xor x.1 len) =
      λ x w. (xor-lt 64 x.0 len w.0 short, xor-lt 64 x.1 len w.1 short) in
    let s = add_both (bit_xor h.0 len, bit_xor h.1 len) in
    let t = add_both (bit_xor g.0 len, bit_xor g.1 len) in
    let ws : Words s = add_both-Words (bit_xor h.0 len, bit_xor h.1 len) in
    let wt : Words t = add_both-Words (bit_xor g.0 len, bit_xor g.1 len) in
    let mixed =
      add_both_injective (mix64 s.0, mix64 s.1) (mix64 t.0, mix64 t.1)
        (mix64-lt s.0 ws.0, mix64-lt s.1 ws.1) (mix64-lt t.0 wt.0, mix64-lt t.1 wt.1) e in
    let same1 : s.0 ≡ t.0 = mix64_injective s.0 t.0 ws.0 wt.0 mixed.0 in
    let same2 : s.1 ≡ t.1 = mix64_injective s.1 t.1 ws.1 wt.1 mixed.1 in
    let both =
      add_both_injective (bit_xor h.0 len, bit_xor h.1 len) (bit_xor g.0 len, bit_xor g.1 len)
        (xored h wh) (xored g wg) (λ i. (same1 i, same2 i)) in
    (xor_injective_right len h.0 g.0 both.0, xor_injective_right len h.1 g.1 both.1)
