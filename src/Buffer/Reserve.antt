-- ===== src/Buffer/Reserve.antt =====
-- `reserve` makes room and keeps what has been written.
use native.Mathlib.Nat.{mod-eq_of_lt}
use asco.Prelude.{
  ℕ, suc, ◌+◌, ◌-◌, ◌^◌, ◌≤◌, ◌<◌, ◌≡◌, refl, inl, inr, arith, ap, leb, leb→le, if◌then◌else◌,
  Bool-cases,
}
use asco.Murmur.{u64}
use asco.Buffer.{Buffer, remaining, moved_data, reserve}
use asco.Buffer.Bytes.{firsts, firsts-agree}
use asco.Buffer.Push.{Inv, content, remaining_lem}

module _ (allocate : ℕ → ℕ → ℕ) (b : Buffer) (inv : Inv b) (n : ℕ)
    (small : b.m_cursor + n < 2 ^ 64) where
  abbrev pub Reserved : Buffer → Type 0
  Reserved b' =
      Inv b' × (b'.m_cursor ≡ b.m_cursor) × (n ≤ b'.m_size - b'.m_cursor) × (content b' ≡ content b)

  moved_content : (k : ℕ) → firsts (moved_data allocate b k) b.m_cursor ≡ content b
  moved_content k = elim inv.memory [
    | inl (f, d) ↦ rw d (
        firsts-agree (λ i. if leb (suc i) b.m_cursor then f i else allocate k i) f b.m_cursor
          (λ i h. ground arith))
    | inr (d, e) ↦
        let start : b.m_cursor ≡ 0 = omega (arith, inv.cursor_le) in
        rw d (ap (firsts (allocate k)) start)
  ]

  -- On a buffer in order `reserve` makes room for as many bytes as were asked for, if the size
  -- that this takes fits in 64 bits; the bytes written and the cursor stay, and so does the
  -- order.
  pub reserve_lem : Reserved (reserve allocate b n)
  unfolding reserve
  reserve_lem = elim (Bool-cases (leb n (remaining b))) [
    | inl fits ↦
        rw fits (inv, refl, omega (arith, leb→le n (remaining b) fits, remaining_lem b inv), refl)
    | inr over ↦
        let size : u64 (b.m_cursor + n) ≡ b.m_cursor + n = mod-eq_of_lt small in
        rw over (
          record {
            cursor_le = omega (arith, size);
            size_lt = omega (arith, size);
            memory = inl (_, refl);
          },
          refl,
          omega (arith, size),
          moved_content (u64 (b.m_cursor + n)),
        )
  ]
