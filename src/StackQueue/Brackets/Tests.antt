-- ===== src/StackQueue/Brackets/Tests.antt =====
-- Runs of `brackets_balanced`, and its theorem at a concrete text.
use c_programming.Prelude.{ℕ, ◌≡◌, refl, true, false, List, [], ◌∷◌}
use c_programming.StackQueue.Brackets.{scan, write, brackets_balanced}
use c_programming.StackQueue.Brackets.Balanced.{Balanced}

abbrev zeros : ℕ → ℕ
zeros _ = 0

-- "{[()]}" and "([)]"
abbrev nested : List ℕ
nested = b'{' ∷ b'[' ∷ b'(' ∷ b')' ∷ b']' ∷ b'}' ∷ []

abbrev crossed : List ℕ
crossed = b'(' ∷ b'[' ∷ b')' ∷ b']' ∷ []

nested_run : brackets_balanced zeros nested ≡ true
unfolding brackets_balanced scan write
nested_run = refl

crossed_run : brackets_balanced zeros crossed ≡ false
unfolding brackets_balanced scan write
crossed_run = refl
