-- ===== src/Sorting/Tests.antt =====
-- A run of `main`, and the theorems at the array that it sorts.
use c_programming.Prelude.{◌≡◌, refl, some, List, [], ◌∷◌}
use c_programming.Prelude.Int.{ℤ, pos, negsuc}
use c_programming.Sorting.{
  Array, write, swap_int, bubble_pass, bubble_loop, bubble_sort, shift, insertion_loop,
  insertion_sort, min_index, selection_loop, selection_sort,
}
use c_programming.Sorting.Arrays.{IsSorted, Rearranged}
use c_programming.Sorting.Bubble.{bubble_sort-IsSorted}
use c_programming.Sorting.Merge.{
  copy, merge_both, drain_left, drain_right, merge, merge_sort_rec, merge_sort,
}
use c_programming.Sorting.Merge.Order.{merge_sort-IsSorted}
use c_programming.Sorting.Quick.{
  in_order, median_of_three, scan_up, scan_down, partition_loop, partition, quick_sort_rec,
  quick_sort,
}
use c_programming.Sorting.Quick.Order.{quick_sort-IsSorted}
use c_programming.Sorting.Main.{initialised, copy_arr, print_arr, original, run_sort, main}

abbrev in_sequence : List ℤ
in_sequence =
    pos 3
    ∷ pos 8
    ∷ pos 11
    ∷ pos 12
    ∷ pos 22
    ∷ pos 25
    ∷ pos 37
    ∷ pos 43
    ∷ pos 55
    ∷ pos 64
    ∷ pos 76
    ∷ pos 90
    ∷ []

abbrev garbage : Array
garbage i = negsuc i

main_output :
    main (some garbage) garbage
    ≡ some original
      ∷ some in_sequence
      ∷ some in_sequence
      ∷ some in_sequence
      ∷ some in_sequence
      ∷ some in_sequence
      ∷ []
unfolding main run_sort print_arr copy_arr initialised write swap_int bubble_pass bubble_loop
    bubble_sort shift insertion_loop insertion_sort min_index selection_loop selection_sort copy
    merge_both drain_left drain_right merge merge_sort_rec merge_sort in_order median_of_three
    scan_up scan_down partition_loop partition quick_sort_rec quick_sort
main_output = refl

abbrev numbers : Array
numbers = initialised original

bubble_sort-IsSorted_example :
    IsSorted (bubble_sort numbers 12) 12 × Rearranged numbers (bubble_sort numbers 12) 12
bubble_sort-IsSorted_example = bubble_sort-IsSorted numbers 12

merge_sort-IsSorted_example :
    (b : Array) × (merge_sort (some garbage) numbers 12 ≡ some b)
    × IsSorted b 12
    × Rearranged numbers b 12
merge_sort-IsSorted_example = merge_sort-IsSorted garbage numbers 12

quick_sort-IsSorted_example :
    (b : Array) × (quick_sort numbers 12 ≡ some b) × IsSorted b 12 × Rearranged numbers b 12
quick_sort-IsSorted_example = quick_sort-IsSorted numbers 12
