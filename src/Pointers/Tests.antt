-- ===== src/Pointers/Tests.antt =====
-- The theorem on reverse at a text of three characters.
use c_programming.Prelude.{ℕ, ◌+◌, ◌-◌, ◌≡◌, some, if◌then◌else◌, ltb}
use c_programming.Pointers.{Chars, reverse}
use c_programming.Pointers.Reverse.{reverse_places}

abbrev letters : Chars
letters i = i + 97

reverse_places_example :
    (t : Chars) × (reverse letters 3 ≡ some t)
    × ((i : ℕ) → t i ≡ (if ltb i 3 then letters (3 - 1 - i) else letters i))
reverse_places_example = reverse_places letters 3
