-- ===== src/Variadic/Tests.antt =====
-- The theorems on the variadic functions at short lists.
use c_programming.Prelude.{ℕ, ◌≡◌, true, some, List, [], ◌∷◌}
use c_programming.Prelude.Texts.{Text, bytes}
use c_programming.Variadic.{null, join}
use c_programming.Variadic.Join.{strings, join-concat}

abbrev words : List Text
words = bytes "Hello" ∷ bytes ", " ∷ bytes "world" ∷ []

join-concat_example :
    join {D = ℕ} true 3 (strings words (null ∷ [])) ≡ some (some (bytes "Hello, world"))
join-concat_example = join-concat ℕ true words (null ∷ [])
