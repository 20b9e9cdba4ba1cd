-- ===== src/Sorting/Merge.antt =====
-- `merge`, `merge_sort_rec` and `merge_sort` of exercises/17_sorting/sorting.c. The buffer `tmp` is
-- passed along with the array.
pub mod Step
pub mod Order
use c_programming.Prelude.{
  ℕ, zero, suc, ◌+◌, ◌-◌, ◌/◌, Bool, true, false, Option, none, some, if◌then◌else◌, leb, ltb, ◌&&◌,
}
use c_programming.Prelude.Int.{ℤ, leb_ℤ}
use c_programming.Sorting.{Array, write}

-- `for (k = ...) tmp[k] = arr[k]`, with the number of rounds left.
unfoldable pub copy : ℕ → ℕ → Array → Array → Array
copy zero k arr tmp = tmp
copy (suc left) k arr tmp = copy left (suc k) arr (write tmp k (arr k))

-- The variables of `merge` once `tmp` is filled.
pub record Merging : Type 0 where
  pub i : ℕ
  pub j : ℕ
  pub k : ℕ
  pub arr : Array

-- `arr[k++] = tmp[i++]`
abbrev pub take_left : Array → Merging → Merging
take_left tmp s = record { i = suc s.i; j = s.j; k = suc s.k; arr = write s.arr s.k (tmp s.i) }

-- `arr[k++] = tmp[j++]`
abbrev pub take_right : Array → Merging → Merging
take_right tmp s = record { i = s.i; j = suc s.j; k = suc s.k; arr = write s.arr s.k (tmp s.j) }

-- `while (i <= mid && j <= hi)`
unfoldable pub merge_both : ℕ → ℕ → ℕ → Array → Merging → Merging
merge_both zero mid hi tmp s = s
merge_both (suc fuel) mid hi tmp s =
    let left = merge_both fuel mid hi tmp (take_left tmp s) in
    let right = merge_both fuel mid hi tmp (take_right tmp s) in
    if leb s.i mid && leb s.j hi then (if leb_ℤ (tmp s.i) (tmp s.j) then left else right) else s

-- `while (i <= mid)`
unfoldable pub drain_left : ℕ → ℕ → Array → Merging → Merging
drain_left zero mid tmp s = s
drain_left (suc fuel) mid tmp s =
    let rest = drain_left fuel mid tmp (take_left tmp s) in if leb s.i mid then rest else s

-- `while (j <= hi)`
unfoldable pub drain_right : ℕ → ℕ → Array → Merging → Merging
drain_right zero hi tmp s = s
drain_right (suc fuel) hi tmp s =
    let rest = drain_right fuel hi tmp (take_right tmp s) in if leb s.j hi then rest else s

-- Each loop takes at most one round for each place from `lo` to `hi`. The new array and `tmp`.
unfoldable pub merge : ℕ → ℕ → ℕ → Array → Array → Array × Array
merge lo mid hi arr tmp =
    let rounds = suc hi - lo in
    let tmp = copy rounds lo arr tmp in
    let start : Merging = record { i = lo; j = suc mid; k = lo; arr = arr } in
    let both = merge_both rounds mid hi tmp start in
    let left = drain_left rounds mid tmp both in
    let right = drain_right rounds hi tmp left in (right.arr, tmp)

unfoldable pub merge_sort_rec : ℕ → ℕ → ℕ → Array → Array → Array × Array
merge_sort_rec zero lo hi arr tmp = (arr, tmp)
merge_sort_rec (suc fuel) lo hi arr tmp = elim (leb hi lo) [
  | true ↦ (arr, tmp)
  | false ↦
      let mid = lo + (hi - lo) / 2 in
      let (arr₁, tmp₁) = merge_sort_rec fuel lo mid arr tmp in
      let (arr₂, tmp₂) = merge_sort_rec fuel (suc mid) hi arr₁ tmp₁ in merge lo mid hi arr₂ tmp₂
]

-- `tmp` is what `malloc` answers, an array that holds anything, or `none` for null, which ends the
-- program.
unfoldable pub merge_sort : Option Array → Array → ℕ → Option Array
merge_sort none arr n = none
merge_sort (some tmp) arr n = some ((merge_sort_rec n 0 (n - 1) arr tmp).0)
