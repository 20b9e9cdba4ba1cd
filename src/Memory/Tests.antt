-- ===== src/Memory/Tests.antt =====
-- The theorems on the growing array at three pushes.
use c_programming.Prelude.{ℕ, ◌≡◌, refl, true, some, [], ◌∷◌, arith}
use c_programming.Prelude.Int.{ℤ, pos}
use c_programming.Prelude.Texts.{bytes}
use c_programming.Memory.{IntVec, vec_create, push_all, dup_string}
use c_programming.Memory.Growth.{Filled, push_all-Filled}

abbrev zeros : ℕ → ℤ
zeros _ = pos 0

push_all-Filled_example :
    (v w : IntVec) × (copied : ℕ) × (vec_create true true zeros 2 ≡ some v)
    × (push_all v 0 (pos 5 ∷ pos 10 ∷ pos 15 ∷ []) ≡ some (w, copied))
    × Filled 2 (pos 5 ∷ pos 10 ∷ pos 15 ∷ []) w copied
push_all-Filled_example =
    push_all-Filled zeros 2 (pos 5 ∷ pos 10 ∷ pos 15 ∷ []) (omega arith) (omega arith)

copied_text : dup_string true (bytes "Hi") ≡ some (72 ∷ 105 ∷ 0 ∷ [])
unfolding dup_string
copied_text = refl
