-- ===== src/Pointers.antt =====
-- exercises/06_pointers/pointers.c: the two functions that write through pointers, and main.
pub mod Reverse
mod Main
mod Tests
use c_programming.Prelude.{
  ℕ, zero, suc, ◌+◌, ◌-◌, ◌≡◌, Bool, true, false, Option, none, some, List, [], ◌∷◌, if◌then◌else◌,
  ltb, ◌==◌,
}
use c_programming.Prelude.Int.{ℤ, pos}
use c_programming.Prelude.Ints.{mul_int, ◌>>=◌}

-- The value that is written and returned; `none` is an overflow.
unfoldable pub double_it : ℤ → Option ℤ
unfolding mul_int
double_it n = mul_int n (pos 2)

-- The characters from `s` on.
abbrev pub Chars : Type 0
Chars = ℕ → ℕ

abbrev pub put_at : Chars → ℕ → ℕ → Chars
put_at s i v j = if j == i then v else s j

unfoldable pub exchange : Chars → ℕ → ℕ → Chars
exchange s left right = let tmp = s left in put_at (put_at s left (s right)) right tmp

-- The loop of `reverse`, a round for each character; `left` and `right` are offsets from `s`.
unfoldable pub reverse_loop : ℕ → Chars → ℕ → ℕ → Option Chars
unfolding exchange
reverse_loop zero s left right = if ltb left right then none else some s
reverse_loop (suc rounds) s left right =
    let rest = reverse_loop rounds (exchange s left right) (left + 1) (right - 1) in
    if ltb left right then rest else some s

-- The pointer to the last character would lie before `s` for an empty text; the loop does not start
-- then, as with offset 0.
unfoldable pub reverse : Chars → ℕ → Option Chars
unfolding reverse_loop
reverse s len = reverse_loop len s 0 (len - 1)
