-- ===== src/LinkedList/Remove.antt =====
-- `list_pop_front`, `list_delete_value`, `list_delete_at` and `list_free`.
use c_programming.Prelude.{
  ℕ, zero, suc, ◌+◌, ◌-◌, ◌≡◌, refl, true, false, some, none, [], ◌∷◌, ◌++◌, arith, ◌==◌,
  if◌then◌else◌, take, drop, length, length-append, ap, ap₂, sym, subst, ◌∙◌, Bool-cases, inl, inr,
}
use mathlib.Core.List.{append_assoc}
use c_programming.Prelude.Int.{ℤ, pos, negsuc, ltb_ℤ, ◌==ℤ◌}
use c_programming.Nodes.{Ptr, null, Heap, Run, exited, node, put, pure, Ends}
use c_programming.Nodes.Chain
use c_programming.Nodes.Chain.{
  Cells, Disjoint, has, first, load-ok, set_next-ok, free-ok, has-append, first-append,
  first-eq-null,
}
use c_programming.LinkedList.{IntList, int_list, pop_front, delete_value, delete_at, unlink}
use c_programming.LinkedList.Spec.{IsList, IsList-eq, SameOutside, erase, remove, delete_index}
use c_programming.LinkedList.Walk.{advance-Stops, before-Stops, tail_of}
use c_programming.Nodes.Links.{cut_after, at_live}

-- What a removal leaves of the list of the cells `xs`: the list of the cells `ys`, the other nodes
-- of `xs` freed, and all nodes outside as they were.
pub record Removed (h : Heap) (xs ys : Cells) (l : IntList) (g : Heap) : Type 0 where
  pub list : IsList g l ys
  pub freed : (a : Ptr) → has a xs ≡ true → has a ys ≡ false → g a ≡ none
  pub same : SameOutside xs h g

Removed-none : (h : Heap) (xs : Cells) (l : IntList) → IsList h l xs → Removed h xs xs l h
Removed-none h xs l is = record { list = is; freed = λ a i o. cc; same = λ a o. refl }

remove-nil : (k : ℕ) → remove k [] ≡ []
unfolding remove
remove-nil zero = refl
remove-nil (suc k) = refl

remove-take :
    (k : ℕ) (xs : Cells) → remove (suc k) xs ≡ take (suc k) xs ++ tail_of (drop (suc k) xs)
unfolding remove
remove-take k [] = refl
remove-take zero (c ∷ []) = refl
remove-take zero (c ∷ d ∷ xs) = refl
remove-take (suc k) (c ∷ xs) = ap (λ l. c ∷ l) (remove-take k xs)

module _ (h : Heap) where
  -- `list_pop_front` takes off the first cell: it returns its value and frees its node.
  pub pop_front-Removed :
      (l : IntList) (p : Ptr) (v : ℤ) (xs : Cells)
      → IsList h l ((p, v) ∷ xs)
      → Ends (pop_front l h) (λ (r, l') g. (r ≡ v) × Removed h ((p, v) ∷ xs) xs l' g)
  unfolding pop_front put
  pop_front-Removed l p v xs is =
      let c = is.chain in
      let live : (p == null) ≡ false = ground (arith, c.0) in
      (
        (v, int_list (first xs null) (l.size - 1)),
        put h p none,
        rw (is.head, live, load-ok h (c.0) (c.1), free-ok h (c.0) (c.1)),
        (
          refl,
          record {
            list = record {
              head = refl;
              size = omega (arith, is.size);
              chain = Chain.Chain-put h p none xs null (c.3) (c.2);
            };
            freed = λ a i o. ground arith;
            same = λ a o. ground arith;
          },
        ),
      )

  -- On an empty list it ends the program.
  pub pop_front-nil : (l : IntList) → IsList h l [] → pop_front l h ≡ exited
  unfolding pop_front
  pop_front-nil l is = rw is.head

  module _ (q : Ptr) (w : ℤ) (ys : Cells) where
    abbrev whole : Cells
    whole = (q, w) ∷ ys

    abbrev this : IntList
    this = int_list q (suc (length ys))

    unlink-Removed :
        (front : Cells) (at : Ptr × ℤ) (t : Ptr) (u : ℤ) (rest : Cells)
        → whole ≡ front ++ at ∷ (t, u) ∷ rest
        → Chain.Chain h whole null
        → Ends (unlink this (at.0) t h) (Removed h whole (front ++ at ∷ rest))
    unfolding unlink put
    unlink-Removed front at t u rest e c =
        let c' = subst (λ l. Chain.Chain h l null) e c in
        let (_, d, apart) = Chain.Chain-split h front (at ∷ (t, u) ∷ rest) null c' in
        let here = d.1 in
        let there = d.3.1 in
        let h₁ : Heap = put h (at.0) (some (node (at.1) (first rest null))) in
        let still : h₁ t ≡ some (node u (first rest null)) = ground (arith, d.2) in
        (
          int_list q (suc (length ys) - 1),
          put h₁ t none,
          rw (load-ok h (d.3.0) there, set_next-ok h (d.0) here, free-ok h₁ (d.3.0) still),
          record {
            list = record {
              head =
                  ap (λ l. first l null) e
                  ∙ first-append front (at ∷ (t, u) ∷ rest) null
                  ∙ sym (first-append front (at ∷ rest) null);
              size = omega (
                arith,
                ap length e,
                length-append front (at ∷ (t, u) ∷ rest),
                length-append front (at ∷ rest),
              );
              chain = cut_after h front (at.0) (at.1) ((t, u) ∷ rest) t u rest refl c';
            };
            freed = λ a i o. gone a (subst (λ l. has a l ≡ true) e i) o;
            same = λ a o. spared a (subst (λ l. has a l ≡ false) e o);
          },
        )
      where
        gone :
            (a : Ptr)
            → has a (front ++ at ∷ (t, u) ∷ rest) ≡ true
            → has a (front ++ at ∷ rest) ≡ false
            → put (put h (at.0) (some (node (at.1) (first rest null)))) t none a ≡ none
        gone a i o =
            ground (arith, has-append a front (at ∷ (t, u) ∷ rest), has-append a front (at ∷ rest))

        spared :
            (a : Ptr)
            → has a (front ++ at ∷ (t, u) ∷ rest) ≡ false
            → put (put h (at.0) (some (node (at.1) (first rest null)))) t none a ≡ h a
        spared a o = ground (arith, has-append a front (at ∷ (t, u) ∷ rest))

    -- The end of `list_delete_value` and of `list_delete_at`: the node behind `at` goes, if any.
    finish-Removed :
        (front : Cells) (at : Ptr × ℤ) (back : Cells)
        → whole ≡ front ++ at ∷ back
        → Chain.Chain h whole null
        → Ends
            ((if first back null == null then pure this else unlink this (at.0) (first back null))
              h)
            (Removed h whole (front ++ at ∷ tail_of back))
    finish-Removed front at [] e c =
        (this, h, refl, subst (λ l. Removed h whole l this h) e (Removed-none h whole this is))
      where
        is : IsList h this whole
        is = record { head = refl; size = refl; chain = c }
    finish-Removed front at ((t, u) ∷ rest) e c =
        let (_, d, apart) =
          Chain.Chain-split h front (at ∷ (t, u) ∷ rest) null
            (subst (λ l. Chain.Chain h l null) e c) in
        let live : (t == null) ≡ false = ground (arith, d.3.0) in
        rw live (unlink-Removed front at t u rest e c)

    finish_as :
        (front : Cells) (at : Ptr × ℤ) (back zs : Cells)
        → whole ≡ front ++ at ∷ back
        → front ++ at ∷ tail_of back ≡ zs
        → Chain.Chain h whole null
        → Ends
            ((if first back null == null then pure this else unlink this (at.0) (first back null))
              h)
            (Removed h whole zs)
    finish_as front at back zs e end c =
        subst (λ l. Ends stop (Removed h whole l)) end (finish-Removed front at back e c)
      where
        stop : Run IntList
        stop =
            (if first back null == null then pure this else unlink this (at.0) (first back null)) h

    delete_value_cons :
        (value : ℤ)
        → IsList h this whole
        → Ends (delete_value this value h) (Removed h whole (erase value whole))
    unfolding delete_value erase
    delete_value_cons value is =
        let c = is.chain in
        let live : (q == null) ≡ false = ground (arith, c.0) in
        rw (live, load-ok h (c.0) (c.1))
          (elim (Bool-cases (w ==ℤ value)) [
            | inl hit ↦
                let ((r, l'), g, run, (_, done)) = pop_front-Removed this q w ys is in
                rw (hit, run) (l', g, refl, done)
            | inr miss ↦
                let s = before-Stops (suc (length ys) + 1) value h q w ys c (omega arith) miss in
                let (live', here) =
                  at_live h s.front (s.at.0) (s.at.1) s.back
                    (subst (λ l. Chain.Chain h l null) s.split c) in
                rw (miss, s.run, load-ok h live' here)
                  (finish_as s.front s.at s.back ((q, w) ∷ erase value ys) s.split
                    (sym s.holds ∙ rw miss) c)
          ])

    remove_nth :
        (front : Cells) (at : Ptr × ℤ) (back : Cells) (k : ℕ)
        → take (suc k) whole ≡ front ++ at ∷ []
        → drop (suc k) whole ≡ back
        → remove (suc k) whole ≡ front ++ at ∷ tail_of back
    remove_nth front at back k e f =
        remove-take k whole
        ∙ ap₂ (λ a b. a ++ tail_of b) e f
        ∙ append_assoc front (at ∷ []) (tail_of back)

    delete_at_cons :
        (k : ℕ)
        → IsList h this whole
        → Ends (delete_at this (pos (suc k)) h) (Removed h whole (remove (suc k) whole))
    unfolding delete_at
    delete_at_cons k is =
        let c = is.chain in
        let live : (q == null) ≡ false = ground (arith, c.0) in
        let positive : ltb_ℤ (pos (suc k)) (pos 0) ≡ false = ground arith in
        let nonzero : (pos (suc k) ==ℤ pos 0) ≡ false = ground arith in
        let count : suc k - 1 ≡ k = omega arith in
        let s = advance-Stops k h q w ys c in
        let (live', here) =
          at_live h s.front (s.at.0) (s.at.1) s.back
            (subst (λ l. Chain.Chain h l null) s.split c) in
        rw (live, positive, nonzero, count, s.run, load-ok h live' here)
          (finish_as s.front s.at s.back (remove (suc k) whole) s.split
            (sym (remove_nth s.front s.at s.back k (s.holds.0) (s.holds.1))) c)

  -- `list_delete_value` ends without error in the list without the first cell that holds the
  -- value, frees that node, and changes no node outside the list.
  pub delete_value-Removed :
      (l : IntList) (xs : Cells) (value : ℤ)
      → IsList h l xs
      → Ends (delete_value l value h) (Removed h xs (erase value xs))
  unfolding delete_value erase
  delete_value-Removed l [] value is = (l, h, rw is.head, Removed-none h [] l is)
  delete_value-Removed l ((q, w) ∷ ys) value is =
      let e = IsList-eq ((q, w) ∷ ys) is in
      rw e (delete_value_cons q w ys value (subst (λ l. IsList h l ((q, w) ∷ ys)) e is))

  -- `list_delete_at` ends without error in the list without the cell at the index, frees that
  -- node, and changes nothing where the index is negative or past the end.
  pub delete_at-Removed :
      (l : IntList) (xs : Cells) (index : ℤ)
      → IsList h l xs
      → Ends (delete_at l index h) (Removed h xs (delete_index index xs))
  unfolding delete_at remove
  delete_at-Removed l [] (pos i) is = (
    l,
    h,
    rw is.head,
    subst (λ z. Removed h [] z l h) (sym (remove-nil i)) (Removed-none h [] l is),
  )
  delete_at-Removed l [] (negsuc i) is = (l, h, rw is.head, Removed-none h [] l is)
  delete_at-Removed l ((q, w) ∷ ys) (negsuc n) is =
      (l, h, ground arith, Removed-none h ((q, w) ∷ ys) l is)
  delete_at-Removed l ((q, w) ∷ ys) (pos zero) is =
      let ((r, l'), g, run, (_, done)) = pop_front-Removed l q w ys is in
      let live : (l.head == null) ≡ false = ground (arith, is.head, is.chain.0) in
      (l', g, rw (live, run), done)
  delete_at-Removed l ((q, w) ∷ ys) (pos (suc k)) is =
      let e = IsList-eq ((q, w) ∷ ys) is in
      rw e (delete_at_cons q w ys k (subst (λ l. IsList h l ((q, w) ∷ ys)) e is))
