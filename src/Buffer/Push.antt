-- ===== src/Buffer/Push.antt =====
-- `push` puts as many bytes behind the others as fit.
use native.Mathlib.Nat.{mod-eq_of_lt, add-mod_right}
use asco.Prelude.{
  ℕ, ◌+◌, ◌-◌, ◌^◌, ◌%◌, ◌≤◌, ◌<◌, min, ◌≡◌, refl, ◌≢◌, ◌⊎◌, inl, inr, arith, ap, sym, ◌∙◌, Option,
  none, some, List, [], ◌++◌, length, ◌==◌, if◌then◌else◌, false, ℕ_discrete,
}
use asco.Murmur.{u64}
use asco.Buffer.{Buffer, remaining, try_advance, push}
use asco.Buffer.Bytes.{take, length-take, write_at, firsts, firsts-write_at}

-- A buffer with memory of a size that `std::size_t` holds, or one that has none.
pub record Inv (b : Buffer) : Type 0 where
  pub cursor_le : b.m_cursor ≤ b.m_size
  pub size_lt : b.m_size < 2 ^ 64
  pub memory : ((f : ℕ → ℕ) × (b.m_data ≡ some f)) ⊎ ((b.m_data ≡ none) × (b.m_size ≡ 0))

-- The bytes written so far.
abbrev pub content : Buffer → List ℕ
content b = elim b.m_data [ some f ↦ firsts f b.m_cursor | none ↦ [] ]

-- How many of `n` bytes the buffer takes.
abbrev pub accepted : Buffer → ℕ → ℕ
accepted b n = if b.m_size == 0 then n else min n (b.m_size - b.m_cursor)

pub remaining_lem : (b : Buffer) → Inv b → remaining b ≡ b.m_size - b.m_cursor
remaining_lem b inv = elim_wrap
  where
    split : b.m_size + 2 ^ 64 - b.m_cursor ≡ (b.m_size - b.m_cursor) + 2 ^ 64
    split = omega (arith, inv.cursor_le)

    elim_wrap : u64 (b.m_size + 2 ^ 64 - b.m_cursor) ≡ b.m_size - b.m_cursor
    elim_wrap =
        ap (λ (x : ℕ). x % 2 ^ 64) split
        ∙ add-mod_right (b.m_size - b.m_cursor) (2 ^ 64)
        ∙ mod-eq_of_lt (omega (arith, inv.size_lt))

module _ (allocate : ℕ → ℕ → ℕ) (b : Buffer) (inv : Inv b) (xs : List ℕ)
    (small : length xs < 2 ^ 64) where
  abbrev pub Pushed : Option (ℕ × Buffer) → Type 0
  Pushed r =
      (n : ℕ) × (b' : Buffer) × (r ≡ some (n, b'))
      × Inv b'
      × (n ≡ accepted b (length xs))
      × (content b' ≡ content b ++ take n xs)

  advance_first :
      b.m_size ≡ 0
      → try_advance allocate b (length xs) ≡ (
        length xs,
        record { m_data = some (allocate (length xs)); m_size = length xs; m_cursor = length xs },
      )
  unfolding try_advance
  advance_first e = rw e refl

  advance_more :
      b.m_size ≢ 0
      → try_advance allocate b (length xs)
        ≡ (accepted b (length xs), record b { m_cursor = b.m_cursor + accepted b (length xs) })
  unfolding try_advance
  advance_more ne =
      rw (not_zero, remaining_lem b inv)
        (ap (λ (c : ℕ). (min (length xs) (b.m_size - b.m_cursor), record b { m_cursor = c })) plain)
    where
      not_zero : (b.m_size == 0) ≡ false
      not_zero = ground arith

      plain :
          u64 (b.m_cursor + min (length xs) (b.m_size - b.m_cursor))
          ≡ b.m_cursor + min (length xs) (b.m_size - b.m_cursor)
      plain = mod-eq_of_lt (omega (arith, inv.cursor_le, inv.size_lt))

  push_step :
      (n : ℕ) (b' : Buffer) (f : ℕ → ℕ)
      → try_advance allocate b (length xs) ≡ (n, b')
      → b'.m_data ≡ some f
      → push allocate b xs
        ≡ some (n, record b' { m_data = some (write_at f b.m_cursor (take n xs)) })
  unfolding push
  push_step n b' f e d =
      rw (push, ap (λ r. r.1.m_data) e ∙ d)
        (ap (λ r. some (r.0, record r.1 { m_data = some (write_at f b.m_cursor (take r.0 xs)) })) e)

  written :
      (f : ℕ → ℕ) (n : ℕ)
      → n ≤ length xs
      → firsts (write_at f b.m_cursor (take n xs)) (b.m_cursor + n)
        ≡ firsts f b.m_cursor ++ take n xs
  written f n h =
      let long : b.m_cursor + n ≡ b.m_cursor + length (take n xs) =
        omega (arith, length-take n xs) in
      ap (firsts (write_at f b.m_cursor (take n xs))) long
      ∙ firsts-write_at f b.m_cursor (take n xs)

  content_none : b.m_size ≡ 0 → content b ≡ []
  content_none e = elim inv.memory [
    | inl (f, d) ↦
        let start : b.m_cursor ≡ 0 = omega (arith, inv.cursor_le) in rw d (ap (firsts f) start)
    | inr (d, _) ↦ rw d refl
  ]

  first_content :
      b.m_size ≡ 0
      → firsts (write_at (allocate (length xs)) b.m_cursor (take (length xs) xs)) (length xs)
        ≡ content b ++ take (length xs) xs
  first_content e =
      let start : b.m_cursor ≡ 0 = omega (arith, inv.cursor_le) in
      let long : length xs ≡ b.m_cursor + length xs = omega arith in
      ap (firsts (write_at (allocate (length xs)) b.m_cursor (take (length xs) xs))) long
      ∙ written (allocate (length xs)) (length xs) (omega arith)
      ∙ ap (λ (c : ℕ). firsts (allocate (length xs)) c ++ take (length xs) xs) start
      ∙ ap (λ (ys : List ℕ). ys ++ take (length xs) xs) (sym (content_none e))

  push_first : b.m_size ≡ 0 → Pushed (push allocate b xs)
  push_first e =
      let start : b.m_cursor ≡ 0 = omega (arith, inv.cursor_le) in
      (
        length xs,
        _,
        push_step _ _ _ (advance_first e) refl,
        record { cursor_le = omega arith; size_lt = small; memory = inl (_, refl) },
        ground arith,
        first_content e,
      )

  push_more : b.m_size ≢ 0 → (f : ℕ → ℕ) → b.m_data ≡ some f → Pushed (push allocate b xs)
  push_more ne f e = (
    accepted b (length xs),
    _,
    push_step _ _ f (advance_more ne) e,
    record {
      cursor_le = ground (arith, inv.cursor_le);
      size_lt = inv.size_lt;
      memory = inl (_, refl);
    },
    refl,
    written f (accepted b (length xs)) (ground arith)
        ∙ ap (λ ys. ys ++ take (accepted b (length xs)) xs) (sym (rw e refl)),
  )

  -- On a buffer in order `push` of fewer than 2 ^ 64 bytes returns how many it took: all of them
  -- into a buffer without memory, and else as many as there is room for; the bytes taken are the
  -- first ones, they stand behind the others, and the buffer stays in order.
  pub push_lem : Pushed (push allocate b xs)
  push_lem = elim (ℕ_discrete b.m_size 0) [
    | yes e ↦ push_first e
    | no ne ↦ elim inv.memory [ inl (f, e) ↦ push_more ne f e | inr (_, e) ↦ absurd (ne e) ]
  ]
