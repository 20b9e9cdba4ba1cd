-- ===== src/LinkedList/Reverse.antt =====
-- `list_reverse`, which turns the links round in place, and `list_free`.
use mathlib.Core.List.{reverse_aux}
use mathlib.Core.List
use c_programming.Prelude.{
  ℕ, zero, suc, ◌+◌, ◌<◌, ◌≡◌, refl, true, false, none, some, [], ◌∷◌, arith, ◌==◌, length,
}
use c_programming.Nodes.{Ptr, null, Heap, node, put, Ends}
use c_programming.Nodes.Chain
use c_programming.Nodes.Chain.{Cells, Disjoint, has, first, load-ok, set_next-ok, free-ok}
use c_programming.LinkedList.{IntList, int_list, reverse, reverse_loop, destroy, free_loop}
use c_programming.LinkedList.Spec.{IsList, SameOutside}

length-reverse_aux : (xs ys : Cells) → length (reverse_aux xs ys) ≡ length xs + length ys
length-reverse_aux [] ys = omega arith
length-reverse_aux (x ∷ xs) ys = omega (arith, length-reverse_aux xs (x ∷ ys))

-- What the loop leaves: `xs` turned round in front of `ys`.
abbrev Turned : Heap → Cells → Cells → Ptr → Heap → Type 0
Turned h xs ys p g =
    (p ≡ first (reverse_aux xs ys) null)
    × Chain.Chain g (reverse_aux xs ys) null
    × SameOutside xs h g

reverse_loop-Turned :
    (k : ℕ) (h : Heap) (xs ys : Cells)
    → Chain.Chain h xs null
    → Chain.Chain h ys null
    → Disjoint xs ys
    → length xs < k
    → Ends (reverse_loop k (first ys null) (first xs null) h) (Turned h xs ys)
unfolding reverse_loop put
reverse_loop-Turned zero h xs ys c d apart fuel = absurd (omega arith)
reverse_loop-Turned (suc k) h [] ys c d apart fuel =
    (first ys null, h, refl, (refl, d, λ a o. refl))
reverse_loop-Turned (suc k) h ((p, v) ∷ xs) ys c d apart fuel =
    let live : (p == null) ≡ false = ground (arith, c.0) in
    let new : has p ys ≡ false = apart p (ground arith) in
    let turned = put h p (some (node v (first ys null))) in
    let (r, g, run, (start, chain, same)) =
      reverse_loop-Turned k turned xs ((p, v) ∷ ys) (Chain.Chain-put h p _ xs null (c.3) (c.2))
        (c.0, ground arith, new, Chain.Chain-put h p _ ys null d new)
        (λ a i. ground (arith, apart a, c.2)) (omega arith) in
    (
      r,
      g,
      rw (live, load-ok h (c.0) (c.1), set_next-ok h (c.0) (c.1)) run,
      (start, chain, λ a o. ground (arith, same a)),
    )

module _ (h : Heap) (l : IntList) (xs : Cells) (is : IsList h l xs) where
  -- `list_reverse` ends without error in the list of the same cells in reverse order, and changes
  -- no node outside the list.
  pub reverse_lem : Ends (reverse l h) (λ l' g. IsList g l' (List.reverse xs) × SameOutside xs h g)
  unfolding reverse
  reverse_lem =
      let (p, g, run, (start, chain, same)) =
        reverse_loop-Turned (l.size + 1) h xs [] is.chain tt (λ a i. refl)
          (omega (arith, is.size)) in
      (
        int_list p l.size,
        g,
        rw (is.head, run),
        (
          record {
            head = start;
            size = omega (arith, is.size, length-reverse_aux xs []);
            chain = chain;
          },
          same,
        ),
      )

free_loop-freed :
    (k : ℕ) (h : Heap) (xs : Cells)
    → Chain.Chain h xs null
    → length xs < k
    → Ends
        (free_loop k (first xs null) h)
        (λ _ g. ((a : Ptr) → has a xs ≡ true → g a ≡ none) × SameOutside xs h g)
unfolding free_loop put
free_loop-freed zero h xs c fuel = absurd (omega arith)
free_loop-freed (suc k) h [] c fuel = (tt, h, refl, (λ a i. cc, λ a o. refl))
free_loop-freed (suc k) h ((p, v) ∷ xs) c fuel =
    let live : (p == null) ≡ false = ground (arith, c.0) in
    let (r, g, run, (gone, same)) =
      free_loop-freed k (put h p none) xs (Chain.Chain-put h p none xs null (c.3) (c.2))
        (omega arith) in
    (
      tt,
      g,
      rw (live, load-ok h (c.0) (c.1), free-ok h (c.0) (c.1)) run,
      (λ a i. freed g a i (c.2) (gone a) (same a), λ a o. ground (arith, same a)),
    )
  where
    freed :
        (g : Heap) (a : Ptr)
        → has a ((p, v) ∷ xs) ≡ true
        → has p xs ≡ false
        → (has a xs ≡ true → g a ≡ none)
        → (has a xs ≡ false → g a ≡ put h p none a)
        → g a ≡ none
    freed g a i out gone same = ground arith

-- `list_free` ends without error, frees every node of the list once, and changes no other node.
pub destroy-freed :
    (h : Heap) (l : IntList) (xs : Cells)
    → IsList h l xs
    → Ends (destroy l h) (λ _ g. ((a : Ptr) → has a xs ≡ true → g a ≡ none) × SameOutside xs h g)
unfolding destroy
destroy-freed h l xs is =
    rw is.head (free_loop-freed (l.size + 1) h xs is.chain (omega (arith, is.size)))
