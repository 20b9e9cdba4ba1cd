-- ===== src/LinkedList/Insert.antt =====
-- `list_create`, `list_push_front`, `list_push_back` and `list_insert_at`.
use c_programming.Prelude.{
  ℕ, zero, suc, ◌+◌, ◌-◌, ◌<◌, ◌≡◌, refl, true, false, some, [], ◌∷◌, ◌++◌, arith, ◌==◌, ◌||◌, take,
  drop, length, length-append, ap, ap₂, sym, subst, ◌∙◌,
}
use mathlib.Core.List.{append_assoc}
use c_programming.Prelude.Int.{ℤ, pos, negsuc, leb_ℤ}
use c_programming.Nodes.{
  Ptr, null, Heap, ok, node, put, IsFresh, int_max, Ends, node_create, increment-ok,
}
use c_programming.Nodes.Chain
use c_programming.Nodes.Chain.{
  Cells, Disjoint, has, first, load-ok, set_next-ok, has-append, first-append, has_of_none,
}
use c_programming.LinkedList.{IntList, int_list, push_front, push_back, insert_at, rounds}
use c_programming.LinkedList.Spec.{IsList, IsList-eq, SameOutside}
use c_programming.LinkedList.Walk.{last_node-Stops, advance-Stops}
use c_programming.Nodes.Links.{insert_after, at_live}

snoc_append : (front ys : Cells) (c : Ptr × ℤ) → (front ++ c ∷ []) ++ ys ≡ front ++ c ∷ ys
snoc_append front ys c = append_assoc front (c ∷ []) ys

-- What an insertion leaves: the list of the cells `ys`, and all other nodes as they were.
abbrev pub Inserted : Heap → Cells → IntList → Heap → Type 0
Inserted h ys l g = IsList g l ys × SameOutside ys h g

module _ (h : Heap) (p : Ptr) (v : ℤ) (new : IsFresh h p) where
  abbrev created : Heap
  created = put h p (some (node v null))

  node_create-ok : node_create p v h ≡ ok p created
  unfolding node_create
  node_create-ok = ground (arith, new.ne_null)

  created_here : created p ≡ some (node v null)
  unfolding put
  created_here = ground arith

  module _ (xs : Cells) where
    -- `list_push_front` ends without error in the list with one more cell at the front, and changes
    -- no other node.
    pub push_front-Inserted :
        (l : IntList)
        → IsList h l xs
        → length xs < int_max
        → Ends (push_front p l v h) (Inserted h ((p, v) ∷ xs))
    unfolding push_front put
    push_front-Inserted l is small =
        let live = new.ne_null in
        let out : has p xs ≡ false = has_of_none h p xs null is.chain new.unused in
        (
          int_list p (l.size + 1),
          put created p (some (node v l.head)),
          rw (
            node_create-ok,
            set_next-ok created live created_here,
            increment-ok l.size _ (omega (arith, is.size)),
          ),
          (
            record {
              head = refl;
              size = omega (arith, is.size);
              chain = (
                live,
                ground (arith, is.head),
                out,
                Chain.Chain-put created p _ xs null (Chain.Chain-put h p _ xs null is.chain out)
                    out,
              );
            },
            λ a o. ground arith,
          ),
        )

  module _ (q : Ptr) (w : ℤ) (ys : Cells) where
    abbrev whole : Cells
    whole = (q, w) ∷ ys

    -- The node `p` is live in `g` and leads to `back`; the cell before `back` is made to lead to it.
    hang :
        (g : Heap) (front : Cells) (at : Ptr × ℤ) (back zs : Cells)
        → whole ≡ front ++ at ∷ back
        → front ++ at ∷ (p, v) ∷ back ≡ zs
        → Chain.Chain g whole null
        → g p ≡ some (node v (first back null))
        → has p whole ≡ false
        → ((a : Ptr) → (a == p) ≡ false → g a ≡ h a)
        → Inserted h zs (int_list q (suc (length ys) + 1)) (put g (at.0) (some (node (at.1) p)))
    unfolding put
    hang g front at back zs e end c here out same =
        subst (λ l. Inserted h l l' g') end
          (
            record {
              head =
                  ap (λ l. first l null) e
                  ∙ first-append front (at ∷ back) null
                  ∙ sym (first-append front (at ∷ (p, v) ∷ back) null);
              size = omega (
                arith,
                ap length e,
                length-append front (at ∷ back),
                length-append front (at ∷ (p, v) ∷ back),
              );
              chain =
                  insert_after g front (at.0) (at.1) back p v
                    (subst (λ l. Chain.Chain g l null) e c) (new.ne_null) here
                    (subst (λ l. has p l ≡ false) e out);
            },
            λ a o. ground (arith, same a, has-append a front (at ∷ (p, v) ∷ back)),
          )
      where
        l' : IntList
        l' = int_list q (suc (length ys) + 1)

        g' : Heap
        g' = put g (at.0) (some (node (at.1) p))

    push_back_cons :
        (is : IsList h (int_list q (suc (length ys))) whole)
        → length whole < int_max
        → Ends (push_back p (int_list q (suc (length ys))) v h) (Inserted h (whole ++ (p, v) ∷ []))
    unfolding push_back put
    push_back_cons is small =
        let out : has p whole ≡ false = has_of_none h p whole null is.chain new.unused in
        let c = Chain.Chain-put h p (some (node v null)) whole null is.chain out in
        let s = last_node-Stops (suc (length ys) + 1) created q w ys c (omega arith) in
        let (live, here) =
          at_live created s.front (s.at.0) (s.at.1) s.back
            (subst (λ l. Chain.Chain created l null) s.split c) in
        let not_null : (q == null) ≡ false = ground (arith, is.chain.0) in
        let end : s.front ++ s.at ∷ (p, v) ∷ s.back ≡ whole ++ (p, v) ∷ [] =
          ap (λ b. s.front ++ s.at ∷ (p, v) ∷ b) s.holds
          ∙ sym (append_assoc s.front (s.at ∷ []) ((p, v) ∷ []))
          ∙ ap (λ l. l ++ (p, v) ∷ [])
              (ap (λ b. s.front ++ s.at ∷ b) (sym s.holds) ∙ sym s.split) in
        (
          int_list q (suc (length ys) + 1),
          put created (s.at.0) (some (node (s.at.1) p)),
          rw (
            node_create-ok,
            not_null,
            s.run,
            set_next-ok created live here,
            increment-ok (suc (length ys)) _ small,
          ),
          hang created s.front s.at s.back _ s.split end c (rw s.holds created_here) out
              (λ a o. ground arith),
        )

    insert_at_cons :
        (k : ℕ) (is : IsList h (int_list q (suc (length ys))) whole)
        → length whole < int_max
        → Ends
            (insert_at p (int_list q (suc (length ys))) (pos (suc k)) v h)
            (Inserted h (take (suc k) whole ++ (p, v) ∷ drop (suc k) whole))
    unfolding insert_at put
    insert_at_cons k is small =
        let out : has p whole ≡ false = has_of_none h p whole null is.chain new.unused in
        let s = advance-Stops k h q w ys is.chain in
        let count : suc k - 1 ≡ k = omega arith in
        let positive : leb_ℤ (pos (suc k)) (pos 0) ≡ false = ground arith in
        let not_null : (q == null) ≡ false = ground (arith, is.chain.0) in
        let c = Chain.Chain-put h p (some (node v null)) whole null is.chain out in
        let (live, here) =
          at_live created s.front (s.at.0) (s.at.1) s.back
            (subst (λ l. Chain.Chain created l null) s.split c) in
        let after = first s.back null in
        let g : Heap = put created p (some (node v after)) in
        let c' = Chain.Chain-put created p (some (node v after)) whole null c out in
        let (live', here') =
          at_live g s.front (s.at.0) (s.at.1) s.back
            (subst (λ l. Chain.Chain g l null) s.split c') in
        let end : s.front ++ s.at ∷ (p, v) ∷ s.back
            ≡ take (suc k) whole ++ (p, v) ∷ drop (suc k) whole =
          sym (append_assoc s.front (s.at ∷ []) ((p, v) ∷ s.back))
          ∙ ap₂ (λ a b. a ++ (p, v) ∷ b) (sym s.holds.0) (sym s.holds.1) in
        (
          int_list q (suc (length ys) + 1),
          put g (s.at.0) (some (node (s.at.1) p)),
          rw (
            positive,
            not_null,
            count,
            s.run,
            node_create-ok,
            load-ok created live here,
            set_next-ok created new.ne_null created_here,
            set_next-ok g live' here',
            increment-ok (suc (length ys)) _ small,
          ),
          hang g s.front s.at s.back _ s.split end c' (ground arith) out (λ a o. ground arith),
        )

  -- On an empty list `list_push_back` sets the head.
  push_back_nil : Ends (push_back p (int_list null 0) v h) (Inserted h ((p, v) ∷ []))
  unfolding push_back put
  push_back_nil = (
    int_list p 1,
    created,
    rw (node_create-ok, increment-ok 0 created (omega arith)),
    (
      record { head = refl; size = refl; chain = (new.ne_null, created_here, refl, tt) },
      λ a o. ground arith,
    ),
  )

  -- `list_push_back` ends without error in the list with one more cell at its end, and changes no
  -- other node.
  pub push_back-Inserted :
      (xs : Cells) (l : IntList)
      → IsList h l xs
      → length xs < int_max
      → Ends (push_back p l v h) (Inserted h (xs ++ (p, v) ∷ []))
  push_back-Inserted [] l is small = rw (IsList-eq [] is) push_back_nil
  push_back-Inserted ((q, w) ∷ ys) l is small =
      let e = IsList-eq ((q, w) ∷ ys) is in
      rw e (push_back_cons q w ys (subst (λ l. IsList h l ((q, w) ∷ ys)) e is) small)

  take-nil : (k : ℕ) → take {A = Ptr × ℤ} k [] ≡ []
  take-nil zero = refl
  take-nil (suc k) = refl

  drop-nil : (k : ℕ) → drop {A = Ptr × ℤ} k [] ≡ []
  drop-nil zero = refl
  drop-nil (suc k) = refl

  insert_at-front :
      (l : IntList) (index : ℤ)
      → (leb_ℤ index (pos 0) || (l.head == null)) ≡ true
      → insert_at p l index v h ≡ push_front p l v h
  unfolding insert_at
  insert_at-front l index e = rw e

  -- `list_insert_at` ends without error in the list with the new cell at the index, at the front
  -- for a negative index and at the end for one past the end.
  pub insert_at-Inserted :
      (xs : Cells) (l : IntList) (index : ℤ)
      → IsList h l xs
      → length xs < int_max
      → Ends
          (insert_at p l index v h)
          (Inserted h (take (rounds index) xs ++ (p, v) ∷ drop (rounds index) xs))
  insert_at-Inserted [] l index is small =
      rw
        (
          IsList-eq [] is,
          take-nil,
          drop-nil,
          insert_at-front (int_list null 0) index (ground arith),
        )
        (push_front-Inserted [] (int_list null 0) (subst (λ l. IsList h l []) (IsList-eq [] is) is)
          small)
  insert_at-Inserted ((q, w) ∷ ys) l (negsuc n) is small =
      rw (insert_at-front l (negsuc n) (ground arith))
        (push_front-Inserted ((q, w) ∷ ys) l is small)
  insert_at-Inserted ((q, w) ∷ ys) l (pos zero) is small =
      rw (insert_at-front l (pos zero) (ground arith))
        (push_front-Inserted ((q, w) ∷ ys) l is small)
  insert_at-Inserted ((q, w) ∷ ys) l (pos (suc k)) is small =
      let e = IsList-eq ((q, w) ∷ ys) is in
      rw e (insert_at_cons q w ys k (subst (λ l. IsList h l ((q, w) ∷ ys)) e is) small)
