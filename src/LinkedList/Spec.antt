-- ===== src/LinkedList/Spec.antt =====
-- What the linked list stands for: the invariant that ties the structure to a sequence of cells,
-- and the operations on sequences of cells that the functions carry out.
use c_programming.Prelude.{◌≡◌, ℕ, length, Bool, false, if◌then◌else◌, arith, List, [], ◌∷◌, ◌||◌}
use c_programming.Prelude.Int.{ℤ, ◌==ℤ◌}
use c_programming.Nodes.{Ptr, null, Heap}
use c_programming.Nodes.Chain.{Cells, Chain, first, has}
use c_programming.LinkedList.{IntList, int_list}

-- `l` is the list of the cells `xs` in the heap `h`.
pub record IsList (h : Heap) (l : IntList) (xs : Cells) : Type 0 where
  pub head : l.head ≡ first xs null
  pub size : l.size ≡ length xs
  pub chain : Chain h xs null

pub IsList-eq :
    {h : Heap} {l : IntList} (xs : Cells) → IsList h l xs → l ≡ int_list (first xs null) (length xs)
IsList-eq xs is = ground (arith, is.head, is.size)

-- Every node of `g` that is not one of `xs` is as in `h`.
abbrev pub SameOutside : Cells → Heap → Heap → Type 0
SameOutside xs h g = (a : Ptr) → has a xs ≡ false → g a ≡ h a

-- The cells without the first that holds `v`.
unfoldable pub erase : ℤ → Cells → Cells
erase v [] = []
erase v ((p, w) ∷ xs) = if w ==ℤ v then xs else (p, w) ∷ erase v xs

unfoldable pub member : ℤ → List ℤ → Bool
member v [] = false
member v (w ∷ ws) = (w ==ℤ v) || member v ws

-- The cells without the one at index `i`, if there is one.
unfoldable pub remove : ℕ → Cells → Cells
remove i [] = []
remove ℕ.zero (c ∷ xs) = xs
remove (ℕ.suc i) (c ∷ xs) = c ∷ remove i xs

-- A negative index names no cell.
abbrev pub delete_index : ℤ → Cells → Cells
delete_index (ℤ.pos i) xs = remove i xs
delete_index (ℤ.negsuc n) xs = xs
