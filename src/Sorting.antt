-- ===== src/Sorting.antt =====
-- The sorts of exercises/17_sorting/sorting.c that work in place: by swapping neighbours, by
-- insertion and by selection; the two that divide the array stand in the modules below. An array is a
-- function from its indices; its length is an argument, as in the code.
pub mod Arrays
pub mod Insertion
pub mod Selection
pub mod Bubble
pub mod Merge
pub mod Quick
pub mod Main
mod Tests
use c_programming.Prelude.{ℕ, zero, suc, ◌+◌, ◌-◌, Bool, true, false, if◌then◌else◌, ◌==◌, not}
use c_programming.Prelude.Int.{ℤ, ltb_ℤ}

abbrev pub Array : Type 0
Array = ℕ → ℤ

-- `arr[i] = v`
unfoldable pub write : Array → ℕ → ℤ → Array
write a i v j = if j == i then v else a j

-- `swap_int(&arr[i], &arr[j])`
unfoldable pub swap_int : Array → ℕ → ℕ → Array
swap_int a i j = write (write a i (a j)) j (a i)

-- The loop over `j` of `bubble_sort`, with the number of rounds left; with the flag `swapped`.
unfoldable pub bubble_pass : ℕ → ℕ → Array → Bool × Array
bubble_pass zero j a = (false, a)
bubble_pass (suc left) j a =
    let kept = bubble_pass left (suc j) a in
    let (_, sunk) = bubble_pass left (suc j) (swap_int a j (suc j)) in
    if ltb_ℤ (a (suc j)) (a j) then (true, sunk) else kept

-- The loop over `i`, with the number `n - 1 - i` of rounds left, which is also the number of rounds
-- of the inner loop.
unfoldable pub bubble_loop : ℕ → Array → Array
bubble_loop zero a = a
bubble_loop (suc left) a =
    let (swapped, a') = bubble_pass (suc left) 0 a in
    let rest = bubble_loop left a' in if not swapped then a' else rest

unfoldable pub bubble_sort : Array → ℕ → Array
bubble_sort a n = bubble_loop (n - 1) a

-- The `while` loop of `insertion_sort` from `j = i - 1`, where `i` is the argument, and the write
-- after it.
unfoldable pub shift : ℤ → ℕ → Array → Array
shift key zero a = write a 0 key
shift key (suc j) a =
    let shifted = shift key j (write a (suc j) (a j)) in
    if ltb_ℤ key (a j) then shifted else write a (suc j) key

-- The loop over `i`, with the number of rounds left.
unfoldable pub insertion_loop : ℕ → ℕ → Array → Array
insertion_loop zero i a = a
insertion_loop (suc left) i a = insertion_loop left (suc i) (shift (a i) i a)

unfoldable pub insertion_sort : Array → ℕ → Array
insertion_sort a n = insertion_loop (n - 1) 1 a

-- The loop over `j` of `selection_sort`, with the number of rounds left.
unfoldable pub min_index : ℕ → ℕ → ℕ → Array → ℕ
min_index zero j min_idx a = min_idx
min_index (suc left) j min_idx a =
    min_index left (suc j) (if ltb_ℤ (a j) (a min_idx) then j else min_idx) a

-- The loop over `i`, with the number `n - 1 - i` of rounds left, which is also the number of rounds
-- of the inner loop.
unfoldable pub selection_loop : ℕ → ℕ → Array → Array
selection_loop zero i a = a
selection_loop (suc left) i a =
    let min_idx = min_index (suc left) (suc i) i a in
    selection_loop left (suc i) (if not (min_idx == i) then swap_int a i min_idx else a)

unfoldable pub selection_sort : Array → ℕ → Array
selection_sort a n = selection_loop (n - 1) 0 a
