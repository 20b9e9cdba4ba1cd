-- ===== src/SearchTree.antt =====
-- The functions of exercises/15_binary_search_tree/bst.c. A node is reached by one pointer only, so
-- a tree is a value; each node keeps its address, by which the frees are followed. A function that
-- returns a pointer into the tree returns the subtree there, and a null pointer is `empty`.
pub mod Member
pub mod Insert
pub mod Delete
pub mod Order
pub mod Measure
mod Main
mod Tests
use c_programming.Prelude.{
  ℕ, ◌+◌, Bool, true, false, Option, none, some, List, [], ◌∷◌, ◌++◌, if◌then◌else◌, ltb, ◌==◌,
}
use c_programming.Prelude.Int.{ℤ, ltb_ℤ, ◌==ℤ◌}
use c_programming.Nodes.{Ptr, null}

pub data Tree : Type 0 where
  empty : Tree
  node : Ptr → Tree → ℤ → Tree → Tree

-- `malloc` answers `fresh`, and a null answer ends the program: `none`.
abbrev pub node_create : Ptr → ℤ → Option Tree
node_create fresh value = if fresh == null then none else some (node fresh empty value empty)

module _ {A B : Type 0} where
  infixl 5 ◌>>=◌
  abbrev pub ◌>>=◌ : Option A → (A → Option B) → Option B
  none >>= f = none
  some a >>= f = f a

pub insert : Ptr → Tree → ℤ → Option Tree
insert fresh empty value = node_create fresh value
insert fresh (node a l x r) value =
    let left = insert fresh l value in
    let right = insert fresh r value in
    if ltb_ℤ value x
    then left >>= (λ l'. some (node a l' x r))
    else if ltb_ℤ x value
    then right >>= (λ r'. some (node a l x r'))
    else some (node a l x r)

-- The addresses that are freed, in order.
pub destroy : Tree → List Ptr
destroy empty = []
destroy (node a l x r) = destroy l ++ (destroy r ++ a ∷ [])

pub search : Tree → ℤ → Tree
search empty value = empty
search (node a l x r) value =
    let left = search l value in
    let right = search r value in
    if x ==ℤ value then node a l x r else if ltb_ℤ value x then left else right

-- `p != NULL`
abbrev pub present : Tree → Bool
present empty = false
present (node a l x r) = true

pub contains : Tree → ℤ → Bool
contains t value = present (search t value)

pub min : Tree → Tree
min empty = empty
min (node a empty x r) = node a empty x r
min (node a (node b l y r') x r) = min (node b l y r')

pub max : Tree → Tree
max empty = empty
max (node a l x empty) = node a l x empty
max (node a l x (node b l' y r)) = max (node b l' y r)

-- `p->value`; `none` is a null pointer followed.
abbrev pub value_at : Tree → Option ℤ
value_at empty = none
value_at (node a l x r) = some x

-- The new tree, and the addresses that are freed.
abbrev pub Cut : Type 0
Cut = Tree × List Ptr

-- The branch of `bst_delete` that has found its node; `cut` is the call on the right subtree.
abbrev pub delete_here : Ptr → Tree → ℤ → Tree → (ℤ → Option Cut) → Option Cut
delete_here a empty x r cut = some (r, a ∷ [])
delete_here a (node b l y r') x empty cut = some (node b l y r', a ∷ [])
delete_here a (node b l y r') x (node c l' z r) cut = value_at (min (node c l' z r)) >>= λ s.
    cut s >>= λ (r'', freed). some (node a (node b l y r') s r'', freed)

pub delete : Tree → ℤ → Option Cut
delete empty value = some (empty, [])
delete (node a l x r) value =
    let left = delete l value in
    let right = delete r value in
    let here = delete_here a l x r (λ s. delete r s) in
    if ltb_ℤ value x
    then left >>= (λ (l', freed). some (node a l' x r, freed))
    else if ltb_ℤ x value
    then right >>= (λ (r', freed). some (node a l x r', freed))
    else here

-- The traversals, as the values that they print.
pub inorder : Tree → List ℤ
inorder empty = []
inorder (node a l x r) = inorder l ++ x ∷ inorder r

pub preorder : Tree → List ℤ
preorder empty = []
preorder (node a l x r) = x ∷ (preorder l ++ preorder r)

pub postorder : Tree → List ℤ
postorder empty = []
postorder (node a l x r) = postorder l ++ (postorder r ++ x ∷ [])

pub height : Tree → ℕ
height empty = 0
height (node a l x r) = let lh = height l in let rh = height r in 1 + (if ltb rh lh then lh else rh)

pub count : Tree → ℕ
count empty = 0
count (node a l x r) = 1 + count l + count r

-- The lines of `bst_print`: how far each is indented, and its value.
pub print : Tree → ℕ → List (ℕ × ℤ)
print empty depth = []
print (node a l x r) depth = print r (depth + 1) ++ (depth, x) ∷ print l (depth + 1)
