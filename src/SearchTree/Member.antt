-- ===== src/SearchTree/Member.antt =====
-- Membership by a walk over the whole tree, the order of a search tree, and the search.
use c_programming.Prelude.{◌≡◌, refl, Bool, true, false, none, some, ◌||◌, if◌then◌else◌, arith}
use c_programming.Prelude.Int.{ℤ, ◌==ℤ◌, ◌<ℤ◌, eq_of_==ℤ}
use c_programming.SearchTree.{Tree, empty, node, search, contains, present, value_at}

unfoldable pub mem : ℤ → Tree → Bool
mem v empty = false
mem v (node a l x r) = (v ==ℤ x) || (mem v l || mem v r)

abbrev pub Below : Tree → ℤ → Type 0
Below t x = (u : ℤ) → mem u t ≡ true → u <ℤ x

abbrev pub Above : Tree → ℤ → Type 0
Above t x = (u : ℤ) → mem u t ≡ true → x <ℤ u

-- All values on the left are smaller and all on the right are larger, at every node.
abbrev pub IsBst : Tree → Type 0
IsBst empty = Unit {0}
IsBst (node a l x r) = IsBst l × IsBst r × Below l x × Above r x

-- `bst_search` finds a node with the value exactly where the tree has one.
pub search-mem :
    (t : Tree) (v : ℤ) → IsBst t → value_at (search t v) ≡ (if mem v t then some v else none)
unfolding search mem
search-mem empty v b = refl
search-mem (node a l x r) v (bl, br, below, above) =
    ground
      (arith, search-mem l v bl, search-mem r v br, below v, above v, eq_of_==ℤ x v, eq_of_==ℤ v x)

present-value_at : (t : Tree) → present t ≡ elim (value_at t) [ none ↦ false | some v ↦ true ]
present-value_at empty = refl
present-value_at (node a l x r) = refl

-- `bst_contains` tells whether the value is in the tree.
pub contains-mem : (t : Tree) (v : ℤ) → IsBst t → contains t v ≡ mem v t
unfolding contains
contains-mem t v b = ground (arith, present-value_at (search t v), search-mem t v b)
