-- ===== src/Pointers/Main.antt =====
-- `main` of exercises/06_pointers/pointers.c: what is printed. Addresses and sizes are left out.
use c_programming.Prelude.{
  ℕ, zero, suc, ◌+◌, ◌-◌, ◌≡◌, refl, Bool, true, false, Option, none, some, List, [], ◌∷◌, ◌++◌,
  if◌then◌else◌, ◌==◌,
}
use c_programming.Prelude.Int.{ℤ, pos}
use c_programming.Prelude.Ints.{◌>>=◌}
use c_programming.Prelude.Texts.{Text, bytes}
use c_programming.Pointers.{Chars, double_it, reverse}

data Line : Type 0 where
  int : ℤ → Line
  char : ℕ → Line
  text : Text → Line
  index : ℕ → Line

-- A variable and the memory that it stands in: `x`, `arr`, `val` at addresses; each cell is an `int`.
abbrev at : List ℤ → ℕ → ℤ
at [] i = pos 0
at (v ∷ vs) zero = v
at (v ∷ vs) (suc i) = at vs i

abbrev arr : List ℤ
arr = pos 10 ∷ pos 20 ∷ pos 30 ∷ pos 40 ∷ pos 50 ∷ []

-- `*(arr + i)` for the places left.
abbrev walk : ℕ → ℕ → List Line
walk zero i = []
walk (suc left) i = int (at arr i) ∷ walk left (i + 1)

-- `while (*ps != '\0')`, on a text without its 0.
abbrev letters : Text → List Line
letters [] = []
letters (c ∷ cs) = char c ∷ letters cs

abbrev starts_with : Text → Text → Bool
starts_with [] t = true
starts_with (c ∷ cs) [] = false
starts_with (c ∷ cs) (d ∷ ds) = if c == d then starts_with cs ds else false

-- `strstr`: the offset of the first occurrence, and the text from there.
strstr : Text → Text → ℕ → Option (ℕ × Text)
strstr [] needle i = if starts_with needle [] then some (i, []) else none
strstr (c ∷ cs) needle i =
    let rest = strstr cs needle (i + 1) in
    if starts_with needle (c ∷ cs) then some (i, c ∷ cs) else rest

abbrev if_found : Option (ℕ × Text) → List Line
if_found none = []
if_found (some (i, t)) = text t ∷ index i ∷ []

abbrev chars : Text → Chars
chars [] i = 0
chars (c ∷ cs) zero = c
chars (c ∷ cs) (suc i) = chars cs i

abbrev first : Chars → ℕ → ℕ → Text
first s zero i = []
first s (suc n) i = s i ∷ first s n (i + 1)

main : Option (List Line)
unfolding double_it reverse strstr
main = do
  let x : ℤ = pos 42
  let x' : ℤ = pos 99
  let pa : ℕ = 0
  doubled ← double_it (pos 5)
  reversed ← reverse (chars (bytes "abcde")) 5
  some (
      int x
        ∷ int x
        ∷ int x'
        ∷ char b'Z'
        ∷ int (at arr pa)
        ∷ int (at arr (pa + 1))
        ∷ int (at arr (pa + 1 + 2))
        ∷ walk 5 0
      ++ index (4 - 0) ∷ letters (bytes "Hello")
      ++ if_found (strstr (bytes "find the needle here") (bytes "needle") 0)
      ++ int (pos 7)
        ∷ int (pos 7)
        ∷ int (pos 7)
        ∷ int (pos 5)
        ∷ int doubled
        ∷ text (bytes "abcde")
        ∷ text (first reversed 5 0)
        ∷ [])

main_printed :
    main
    ≡ some (
        int (pos 42)
        ∷ int (pos 42)
        ∷ int (pos 99)
        ∷ char b'Z'
        ∷ int (pos 10)
        ∷ int (pos 20)
        ∷ int (pos 40)
        ∷ int (pos 10)
        ∷ int (pos 20)
        ∷ int (pos 30)
        ∷ int (pos 40)
        ∷ int (pos 50)
        ∷ index 4
        ∷ char b'H'
        ∷ char b'e'
        ∷ char b'l'
        ∷ char b'l'
        ∷ char b'o'
        ∷ text (bytes "needle here")
        ∷ index 9
        ∷ int (pos 7)
        ∷ int (pos 7)
        ∷ int (pos 7)
        ∷ int (pos 5)
        ∷ int (pos 10)
        ∷ text (bytes "abcde")
        ∷ text (bytes "edcba")
        ∷ [])
unfolding main
main_printed = refl
