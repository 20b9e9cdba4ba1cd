-- ===== src/Functions/Main.antt =====
-- `main` of exercises/04_functions/functions.c: what is printed.
use c_programming.Prelude.{
  ℕ, zero, suc, ◌+◌, ◌≡◌, refl, Option, none, some, List, [], ◌∷◌, ◌++◌, ◌==◌, if◌then◌else◌,
}
use c_programming.Prelude.Int.{ℤ, pos}
use c_programming.Prelude.Ints.{◌>>=◌}
use c_programming.Functions.{
  Memory, add, max3, average, swap, Call, returns, undefined, runs_on, factorial, fibonacci,
}

data Line : Type 0 where
  value : ℤ → Line
  quotient : ℤ → ℕ → Line
  both : ℤ → ℤ → Line
  at : ℕ → ℤ → Line

-- `x` and `y` at the addresses 0 and 1.
abbrev variables : Memory
variables p = if p == 0 then pos 5 else pos 10

-- The lines `i! = ...` or `fib(i) = ...`, `left` of them; a call that does not return ends it all.
abbrev calls : (ℕ → ℤ → Call) → ℕ → ℕ → Option (List Line)
calls f zero i = some []
calls f (suc left) i = elim (f (suc i) (pos i)) [
  | returns v ↦ calls f left (i + 1) >>= λ rest. some (at i v ∷ rest)
  | undefined ↦ none
  | runs_on ↦ none
]

scores : List ℤ
scores = pos 88 ∷ pos 72 ∷ pos 95 ∷ pos 60 ∷ pos 83 ∷ []

main : Option (List Line)
unfolding add max3 average swap scores
main = do
  sum ← add (pos 3) (pos 4)
  (total, len) ← average scores 5
  unused ← add (pos 3) (pos 4)
  let after = swap variables 0 1
  factorials ← calls factorial 8 0
  fibonaccis ← calls fibonacci 10 0
  some (
      (value sum
        ∷ value (max3 (pos 7) (pos 2) (pos 9))
        ∷ quotient total len
        ∷ value (pos 100)
        ∷ value (pos 100)
        ∷ both (variables 0) (variables 1)
        ∷ both (after 0) (after 1)
        ∷ factorials)
      ++ fibonaccis)

main_printed :
    main
    ≡ some (
        value (pos 7)
        ∷ value (pos 9)
        ∷ quotient (pos 398) 5
        ∷ value (pos 100)
        ∷ value (pos 100)
        ∷ both (pos 5) (pos 10)
        ∷ both (pos 10) (pos 5)
        ∷ at 0 (pos 1)
        ∷ at 1 (pos 1)
        ∷ at 2 (pos 2)
        ∷ at 3 (pos 6)
        ∷ at 4 (pos 24)
        ∷ at 5 (pos 120)
        ∷ at 6 (pos 720)
        ∷ at 7 (pos 5040)
        ∷ at 0 (pos 0)
        ∷ at 1 (pos 1)
        ∷ at 2 (pos 1)
        ∷ at 3 (pos 2)
        ∷ at 4 (pos 3)
        ∷ at 5 (pos 5)
        ∷ at 6 (pos 8)
        ∷ at 7 (pos 13)
        ∷ at 8 (pos 21)
        ∷ at 9 (pos 34)
        ∷ [])
unfolding main factorial fibonacci
main_printed = refl
