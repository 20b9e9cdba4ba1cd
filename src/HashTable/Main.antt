-- ===== src/HashTable/Main.antt =====
-- `main` of exercises/18_hash_table/hash_table.c.
use c_programming.Prelude.{
  ℕ, zero, suc, ◌+◌, ◌*◌, ◌/◌, ◌%◌, Bool, Option, none, some, List, [], ◌∷◌, ◌++◌, ltb, ◌==◌, ◌||◌,
  if◌then◌else◌, map,
}
use c_programming.Prelude.Texts.{bytes}
use c_programming.Prelude.Int.{ℤ, pos, suc_ℤ, ◌==ℤ◌}
use c_programming.HashTable.{Key, HashMap, create, put, get, delete, contains}

-- What is printed, without the titles; the loads are left out.
pub data Line : Type 0 where
  table : HashMap → Line
  got : Option ℤ → Line
  flag : Bool → Line
  grown : ℕ → ℕ → Line

-- `snprintf(key, sizeof(key), "key%d", i)` for `i` below 100
unfoldable pub numbered : ℕ → Key
numbered i = bytes "key" ++ (if ltb i 10 then (48 + i) ∷ [] else (48 + i / 10) ∷ (48 + i % 10) ∷ [])

-- The loop that fills the table: the first `n` rounds, with the lines that they print.
unfoldable pub fill : ℕ → HashMap → HashMap × List Line
fill zero m = (m, [])
fill (suc i) m =
    let (before, lines) = fill i m in
    let after = put before (numbered i) (pos (i * i)) in
    (
      after,
      if (i == 5) || ((i == 11) || ((i == 23) || (i == 39)))
          then lines ++ grown (i + 1) after.capacity ∷ []
          else lines,
    )

-- The number of errors that the loop over the first `n` keys finds.
unfoldable pub verify : ℕ → HashMap → ℕ
verify zero m = 0
verify (suc i) m =
    verify i m
    + elim (get m (numbered i)) [ none ↦ 1 | some val ↦ if val ==ℤ pos (i * i) then 0 else 1 ]

-- `int count = 0; hmap_get(freq, word, &count); hmap_put(freq, word, count + 1);` for each word.
-- The counts do not reach the end of `int`.
unfoldable pub count_words : List Key → HashMap → HashMap
count_words [] freq = freq
count_words (w ∷ ws) freq =
    count_words ws (put freq w (suc_ℤ (elim (get freq w) [ some count ↦ count | none ↦ pos 0 ])))

abbrev pub words : List Key
words = map bytes (
    "the" ∷ "quick" ∷ "brown" ∷ "fox" ∷ "jumps" ∷ "over" ∷ "the" ∷ "lazy" ∷ "dog" ∷ "the" ∷ "fox"
    ∷ "the" ∷ [])

unfoldable pub main : List Line
main =
    let m₁ = put create (bytes "alpha") (pos 1) in
    let m₂ = put m₁ (bytes "beta") (pos 2) in
    let m₃ = put m₂ (bytes "gamma") (pos 3) in
    let m₄ = put m₃ (bytes "delta") (pos 4) in
    let m₅ = put m₄ (bytes "epsilon") (pos 5) in
    let m₆ = put m₅ (bytes "beta") (pos 99) in
    let (gamma, m₇) = delete m₆ (bytes "gamma") in
    let (missing, m₈) = delete m₇ (bytes "missing") in
    let (big, lines) = fill 40 create in
    table m₅
      ∷ got (get m₅ (bytes "alpha"))
      ∷ got (get m₅ (bytes "gamma"))
      ∷ got (get m₅ (bytes "epsilon"))
      ∷ got (get m₅ (bytes "zeta"))
      ∷ got (get m₆ (bytes "beta"))
      ∷ flag gamma
      ∷ flag missing
      ∷ flag (contains m₈ (bytes "gamma"))
      ∷ table m₈
      ∷ lines
    ++ flag (verify 40 big == 0) ∷ table (count_words words create) ∷ []
