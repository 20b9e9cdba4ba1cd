-- ===== src/Sorting/Quick.antt =====
-- `median_of_three`, `partition`, `quick_sort_rec` and `quick_sort` of
-- exercises/17_sorting/sorting.c. `none`: a scan reads a place outside the array, whose length is
-- `n`, or a loop is out of fuel.
pub mod Moved
pub mod Scan
pub mod Split
pub mod Order
use c_programming.Prelude.{
  ℕ, zero, suc, ◌+◌, ◌-◌, ◌/◌, Bool, true, false, Option, none, some, if◌then◌else◌, leb, ltb,
}
use c_programming.Prelude.Int.{ℤ, ltb_ℤ}
use c_programming.Sorting.{Array, write, swap_int}

-- `if (arr[i] > arr[j]) swap_int(&arr[i], &arr[j]);`
unfoldable pub in_order : ℕ → ℕ → Array → Array
in_order i j a = if ltb_ℤ (a j) (a i) then swap_int a i j else a

-- The array; the index that is returned is `hi - 1`.
unfoldable pub median_of_three : Array → ℕ → ℕ → Array
median_of_three a lo hi =
    let mid = lo + (hi - lo) / 2 in
    swap_int (in_order mid hi (in_order lo hi (in_order lo mid a))) mid (hi - 1)

-- `while (arr[++i] < pivot) {}`
unfoldable pub scan_up : ℕ → ℕ → ℤ → ℕ → Array → Option ℕ
scan_up zero n pivot i a = none
scan_up (suc fuel) n pivot i a =
    let further = scan_up fuel n pivot (suc i) a in
    if leb n (suc i) then none else if ltb_ℤ (a (suc i)) pivot then further else some (suc i)

-- `while (arr[--j] > pivot) {}`
unfoldable pub scan_down : ℤ → ℕ → Array → Option ℕ
scan_down pivot zero a = none
scan_down pivot (suc j) a =
    let further = scan_down pivot j a in if ltb_ℤ pivot (a j) then further else some j

-- `while (1)`: the last `i`, and the array.
unfoldable pub partition_loop : ℕ → ℕ → ℤ → ℕ → ℕ → Array → Option (ℕ × Array)
partition_loop zero n pivot i j a = none
partition_loop (suc fuel) n pivot i j a = elim (scan_up n n pivot i a) [
  | none ↦ none
  | some i' ↦ elim (scan_down pivot j a) [
    | none ↦ none
    | some j' ↦ elim (leb j' i') [
      | true ↦ some (i', a)
      | false ↦ partition_loop fuel n pivot i' j' (swap_int a i' j')
    ]
  ]
]

unfoldable pub partition : ℕ → Array → ℕ → ℕ → Option (ℕ × Array)
partition n a lo hi = elim (ltb (hi - lo) 2) [
  | true ↦ some (lo, in_order lo hi a)
  | false ↦
      let b = median_of_three a lo hi in
      let pivot_idx = hi - 1 in
      elim (partition_loop n n (b pivot_idx) lo (hi - 1) b) [
        | none ↦ none
        | some (i, c) ↦ some (i, swap_int c i pivot_idx)
      ]
]

-- Where `p` is 0, `p - 1` of the source is -1; like 0 here, it is not above `lo`.
unfoldable pub quick_sort_rec : ℕ → ℕ → ℕ → ℕ → Array → Option Array
quick_sort_rec zero n lo hi a = none
quick_sort_rec (suc fuel) n lo hi a = elim (leb hi lo) [
  | true ↦ some a
  | false ↦ elim (partition n a lo hi) [
    | none ↦ none
    | some (p, b) ↦ elim (quick_sort_rec fuel n lo (p - 1) b) [
      | none ↦ none
      | some c ↦ quick_sort_rec fuel n (p + 1) hi c
    ]
  ]
]

unfoldable pub quick_sort : Array → ℕ → Option Array
quick_sort a n = if ltb n 2 then some a else quick_sort_rec n n 0 (n - 1) a
