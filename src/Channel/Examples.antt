-- ===== src/Channel/Examples.antt =====
-- A channel of three values.
use asco.Prelude.{ℕ, List, [], ◌∷◌}

abbrev four : List ℕ
four = 4 ∷ []

abbrev four_five : List ℕ
four_five = 4 ∷ 5 ∷ []

abbrev five_four : List ℕ
five_four = 5 ∷ 4 ∷ []

abbrev four_to_six : List ℕ
four_to_six = 4 ∷ 5 ∷ 6 ∷ []
