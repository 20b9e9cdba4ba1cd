-- ===== src/SearchTree/Order.antt =====
-- The traversals and `bst_print`: order, and agreement with one another.
use mathlib.Core.List.{reverse, reverse-append, map-append, append_assoc}
use c_programming.Prelude.{
  ℕ, ◌+◌, ◌≡◌, refl, Bool, true, false, ◌||◌, arith, List, [], ◌∷◌, ◌++◌, map, sym, ◌∙◌,
}
use c_programming.Prelude.Int.{ℤ, ◌==ℤ◌, ◌<ℤ◌, eq_of_==ℤ, ==ℤ_refl}
use c_programming.SearchTree.{Tree, empty, node, inorder, print}
use c_programming.SearchTree.Member.{mem, IsBst, Below, Above}

unfoldable pub member : ℤ → List ℤ → Bool
member v [] = false
member v (w ∷ ws) = (v ==ℤ w) || member v ws

-- Each value is smaller than all that follow.
abbrev pub IsAscending : List ℤ → Type 0
IsAscending [] = Unit {0}
IsAscending (v ∷ vs) = ((u : ℤ) → member u vs ≡ true → v <ℤ u) × IsAscending vs

member-append : (v : ℤ) (xs ys : List ℤ) → member v (xs ++ ys) ≡ (member v xs || member v ys)
unfolding member
member-append v [] ys = refl
member-append v (x ∷ xs) ys = ground (arith, member-append v xs ys)

member-inorder : (v : ℤ) (t : Tree) → member v (inorder t) ≡ mem v t
unfolding member inorder mem
member-inorder v empty = refl
member-inorder v (node a l x r) =
    ground
      (arith, member-append v (inorder l) (x ∷ inorder r), member-inorder v l, member-inorder v r)

reverse_snoc : (x : ℤ) (xs : List ℤ) → reverse (x ∷ xs) ≡ reverse xs ++ x ∷ []
reverse_snoc x xs = reverse-append (x ∷ []) xs

append-IsAscending :
    (xs ys : List ℤ)
    → IsAscending xs
    → IsAscending ys
    → ((u w : ℤ) → member u xs ≡ true → member w ys ≡ true → u <ℤ w)
    → IsAscending (xs ++ ys)
unfolding member
append-IsAscending [] ys a b apart = b
append-IsAscending (x ∷ xs) ys (head, a) b apart = (
  λ u m. ground (arith, head u, member-append u xs ys, apart x u, ==ℤ_refl x),
  append-IsAscending xs ys a b (λ u w i j. apart u w (ground (arith, i)) j),
)

IsAscending-node :
    (l : Tree) (x : ℤ) (r : Tree)
    → Below l x
    → Above r x
    → IsAscending (inorder l)
    → IsAscending (inorder r)
    → IsAscending (inorder l ++ x ∷ inorder r)
unfolding member
IsAscending-node l x r below above a b =
    append-IsAscending (inorder l) (x ∷ inorder r) a
      ((λ u m. above u (sym (member-inorder u r) ∙ m)), b)
      (λ u w i j.
        ground (arith, below u, above w, member-inorder u l, member-inorder w r, eq_of_==ℤ w x))

ascending : (t : Tree) → IsBst t → IsAscending (inorder t)
unfolding inorder
ascending empty b = tt
ascending (node a l x r) (bl, br, below, above) =
    IsAscending-node l x r below above (ascending l bl) (ascending r br)

-- `bst_inorder` prints the values of a search tree in ascending order, each once, and exactly them.
pub inorder-IsAscending :
    (t : Tree) → IsBst t → IsAscending (inorder t) × ((v : ℤ) → member v (inorder t) ≡ mem v t)
inorder-IsAscending t b = (ascending t b, λ v. member-inorder v t)

-- `bst_print` prints the values from the right to the left, at whatever depth it starts.
pub print-reverse :
    (t : Tree) (depth : ℕ) → map (λ (line : ℕ × ℤ). line.1) (print t depth) ≡ reverse (inorder t)
unfolding print inorder
print-reverse empty depth = refl
print-reverse (node a l x r) depth = simp (
  map-append,
  print-reverse r (depth + 1),
  print-reverse l (depth + 1),
  reverse-append,
  reverse_snoc x (inorder r),
  append_assoc,
)
