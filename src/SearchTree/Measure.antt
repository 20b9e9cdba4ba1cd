-- ===== src/SearchTree/Measure.antt =====
-- `bst_count`, `bst_height`, `bst_free` and the orders of `bst_preorder` and `bst_postorder`.
use mathlib.Core.List.{Perm, perm_middle, perm_append_singleton}
use mathlib.Core.List.Perm
use native.Mathlib.Nat.{pow-suc}
use c_programming.Prelude.{
  ℕ, zero, suc, ◌+◌, ◌*◌, ◌^◌, ◌≤◌, ◌≡◌, refl, arith, List, [], ◌∷◌, ◌++◌, length, length-append,
  ltb, Bool-cases, inl, inr,
}
use c_programming.Nodes.{Ptr}
use c_programming.SearchTree.{
  Tree, empty, node, inorder, preorder, postorder, height, count, destroy,
}
use c_programming.SearchTree.Delete.{uses, frees}

pow_pos : (n : ℕ) → 1 ≤ 2 ^ n
pow_pos zero = omega arith
pow_pos (suc n) = omega (arith, pow-suc 2 n, pow_pos n)

pow_mono : (m n : ℕ) → m ≤ n → 2 ^ m ≤ 2 ^ n
pow_mono zero n h = pow_pos n
pow_mono (suc m) zero h = absurd (omega arith)
pow_mono (suc m) (suc n) h = omega (arith, pow-suc 2 m, pow-suc 2 n, pow_mono m n (omega arith))

pow_one_add : (n : ℕ) → 2 ^ (1 + n) ≡ 2 * 2 ^ n
pow_one_add n = let e : 1 + n ≡ suc n = omega arith in rw e (omega (arith, pow-suc 2 n))

-- The height of a tree lies between the logarithm of the number of its nodes and this number.
pub height_bounds : (t : Tree) → (height t ≤ count t) × (count t + 1 ≤ 2 ^ height t)
unfolding height count
height_bounds empty = (omega arith, omega arith)
height_bounds (node a l x r) =
    let (low, up) = height_bounds l in
    let (low', up') = height_bounds r in
    elim (Bool-cases (ltb (height r) (height l))) [
      | inl deeper ↦
          rw (deeper, pow_one_add)
            (omega arith, omega (arith, pow_mono (height r) (height l) (ground arith)))
      | inr shallow ↦
          rw (shallow, pow_one_add)
            (omega arith, omega (arith, pow_mono (height l) (height r) (ground arith)))
    ]

-- `bst_count` is the number of values that `bst_inorder` prints.
pub count-inorder : (t : Tree) → count t ≡ length (inorder t)
unfolding count inorder
count-inorder empty = refl
count-inorder (node a l x r) =
    omega (arith, count-inorder l, count-inorder r, length-append (inorder l) (x ∷ inorder r))

-- `bst_preorder` and `bst_postorder` print the values that `bst_inorder` prints, as often.
pub traversals-perm : (t : Tree) → Perm (preorder t) (inorder t) × Perm (postorder t) (inorder t)
unfolding preorder postorder inorder
traversals-perm empty = (Perm.refl [], Perm.refl [])
traversals-perm (node a l x r) =
    let (pre, post) = traversals-perm l in
    let (pre', post') = traversals-perm r in
    (
      Perm.trans (Perm.cons x (Perm.append pre pre'))
          (Perm.symm (perm_middle (inorder l) (inorder r))),
      Perm.append post (Perm.trans (perm_append_singleton x (postorder r)) (Perm.cons x post')),
    )

frees-append : (q : Ptr) (xs ys : List Ptr) → frees q (xs ++ ys) ≡ frees q xs + frees q ys
unfolding frees
frees-append q [] ys = omega arith
frees-append q (x ∷ xs) ys = omega (arith, frees-append q xs ys)

-- `bst_free` frees every node of the tree as often as it stands there, and nothing else.
pub frees-destroy : (t : Tree) (q : Ptr) → frees q (destroy t) ≡ uses q t
unfolding frees destroy uses
frees-destroy empty q = refl
frees-destroy (node a l x r) q = omega (
  arith,
  frees-append q (destroy l) (destroy r ++ a ∷ []),
  frees-append q (destroy r) (a ∷ []),
  frees-destroy l q,
  frees-destroy r q,
)
