-- ===== src/Buffer/Examples.antt =====
-- A buffer of four bytes with two written.
use asco.Prelude.{ℕ, refl, arith, inl, some, [], ◌∷◌, List}
use asco.Buffer.{Buffer, push}
use asco.Buffer.Bytes.{write_at}
use asco.Buffer.Push.{Inv, Pushed, push_lem}

abbrev dirty : ℕ → ℕ → ℕ
dirty n i = 255

abbrev two_written : Buffer
two_written = record { m_data = some (write_at (dirty 4) 0 (1 ∷ 2 ∷ [])); m_size = 4; m_cursor = 2 }

two_written-Inv : Inv two_written
two_written-Inv = record { cursor_le = omega arith; size_lt = omega arith; memory = inl (_, refl) }

abbrev three : List ℕ
three = 7 ∷ 8 ∷ 9 ∷ []

push_lem_example :
    Pushed dirty two_written two_written-Inv three (omega arith) (push dirty two_written three)
push_lem_example = push_lem dirty two_written two_written-Inv three (omega arith)
