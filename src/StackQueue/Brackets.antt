-- ===== src/StackQueue/Brackets.antt =====
-- `brackets_balanced` of exercises/16_stack_and_queue/stack_queue.c. The text is the list of its
-- bytes before the end; `top + 1` of the source is `depth`.
pub mod Balanced
mod Tests
use c_programming.Prelude.{
  ℕ, zero, suc, ◌+◌, ◌-◌, Bool, true, false, ◌||◌, ◌&&◌, not, List, [], ◌∷◌, ◌==◌, leb,
  if◌then◌else◌,
}

abbrev pub is_open : ℕ → Bool
is_open c = (c == b'(') || ((c == b'[') || (c == b'{'))

abbrev pub is_close : ℕ → Bool
is_close c = (c == b')') || ((c == b']') || (c == b'}'))

-- The test that makes a closer fail against the opener `o`.
abbrev pub is_mismatch : ℕ → ℕ → Bool
is_mismatch c o =
    ((c == b')') && not (o == b'('))
    || (((c == b']') && not (o == b'[')) || ((c == b'}') && not (o == b'{')))

-- `stk[i] = c`
unfoldable pub write : (ℕ → ℕ) → ℕ → ℕ → ℕ → ℕ
write stk i c j = if j == i then c else stk j

-- The size of the array `stk`.
abbrev pub room : ℕ
room = 256

unfoldable pub scan : List ℕ → (ℕ → ℕ) → ℕ → Bool
scan [] stk depth = depth == 0
scan (c ∷ s) stk depth =
    let opened = scan s (write stk depth c) (depth + 1) in
    let closed = scan s stk (depth - 1) in
    let skipped = scan s stk depth in
    if is_open c
    then (if leb room depth then false else opened)
    else if is_close c
    then (if depth == 0 then false else if is_mismatch c (stk (depth - 1)) then false else closed)
    else skipped

-- The array starts uninitialised: `stk` is whatever stands there.
unfoldable pub brackets_balanced : (ℕ → ℕ) → List ℕ → Bool
unfolding scan
brackets_balanced stk s = scan s stk 0
