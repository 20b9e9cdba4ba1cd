-- ===== src/Prelude/Texts.antt =====
-- Texts as lists of bytes without the final 0, and their equality.
use Prim.Native.String.{String}
use Prim.Native.Char.{code}
use c_programming.Prelude.{ℕ, Bool, true, false, List, [], ◌∷◌, ◌&&◌, ◌==◌, arith, ◌≡◌, refl}

abbrev pub Text : Type 0
Text = List ℕ

-- The bytes of a literal.
abbrev pub bytes : String → Text
bytes String.[] = []
bytes (String.◌∷◌ c s) = code c ∷ bytes s

-- `strcmp(a, b) == 0`
unfoldable pub str_eq : Text → Text → Bool
str_eq [] [] = true
str_eq [] (d ∷ ds) = false
str_eq (c ∷ cs) [] = false
str_eq (c ∷ cs) (d ∷ ds) = (c == d) && str_eq cs ds

pub str_eq_refl : (a : Text) → str_eq a a ≡ true
unfolding str_eq
str_eq_refl [] = refl
str_eq_refl (c ∷ cs) = ground (arith, str_eq_refl cs)

pub eq_of_str_eq : (a b : Text) → str_eq a b ≡ true → a ≡ b
unfolding str_eq
eq_of_str_eq [] [] e = refl
eq_of_str_eq [] (d ∷ ds) e = cc
eq_of_str_eq (c ∷ cs) [] e = cc
eq_of_str_eq (c ∷ cs) (d ∷ ds) e = ground (arith, eq_of_str_eq cs ds)
