-- ===== src/Nodes/Links.antt =====
-- What a change of links at one node of a chain makes of the chain.
use c_programming.Prelude.{◌≡◌, ◌≢◌, true, false, some, none, [], ◌∷◌, ◌++◌, arith, ap, subst}
use c_programming.Prelude.Int.{ℤ}
use c_programming.Nodes.{Ptr, null, Heap, node, put}
use c_programming.Nodes.Chain
use c_programming.Nodes.Chain.{Cells, Disjoint, has, first, has-append}

module _ (h : Heap) (front : Cells) (a : Ptr) (w : ℤ) (back : Cells) where
  -- The node `a` is made to lead to the chain `ys` in place of `back`.
  pub relink :
      (ys : Cells)
      → Chain.Chain h (front ++ (a, w) ∷ back) null
      → Chain.Chain h ys null
      → Disjoint (front ++ (a, w) ∷ []) ys
      → Chain.Chain (put h a (some (node w (first ys null)))) (front ++ (a, w) ∷ ys) null
  unfolding put
  relink ys c d apart =
      let (k, n, out) = Chain.Chain-split h front ((a, w) ∷ back) null c in
      let off : has a front ≡ false = ground (arith, out a) in
      let off' : has a ys ≡ false = ground (arith, apart a, has-append a front ((a, w) ∷ [])) in
      Chain.Chain-append _ front ((a, w) ∷ ys) null (Chain.Chain-put h a _ front a k off)
        (n.0, ground arith, off', Chain.Chain-put h a _ ys null d off')
        (λ b i. ground (arith, out b, apart b, has-append b front ((a, w) ∷ [])))

  pub at_live :
      Chain.Chain h (front ++ (a, w) ∷ back) null
      → (a ≢ null) × (h a ≡ some (node w (first back null)))
  at_live c = let (_, c', _) = Chain.Chain-split h front ((a, w) ∷ back) null c in (c'.0, c'.1)

  snoc_Disjoint : Chain.Chain h (front ++ (a, w) ∷ back) null → Disjoint (front ++ (a, w) ∷ []) back
  snoc_Disjoint c b i =
      let (_, d, apart) = Chain.Chain-split h front ((a, w) ∷ back) null c in
      not_back b (d.2) (apart b) i
    where
      not_back :
          (b : Ptr)
          → has a back ≡ false
          → (has b front ≡ true → has b ((a, w) ∷ back) ≡ false)
          → has b (front ++ (a, w) ∷ []) ≡ true
          → has b back ≡ false
      not_back b out apart i = ground (arith, has-append b front ((a, w) ∷ []))

  has_snoc : (b : Ptr) → has b (front ++ (a, w) ∷ []) ≡ true → has b (front ++ (a, w) ∷ back) ≡ true
  has_snoc b i =
      ground (arith, has-append b front ((a, w) ∷ []), has-append b front ((a, w) ∷ back))

  -- A live node `p` that is not in the chain, and that leads to `back`, is hung in behind `a`.
  pub insert_after :
      (p : Ptr) (v : ℤ)
      → Chain.Chain h (front ++ (a, w) ∷ back) null
      → p ≢ null
      → h p ≡ some (node v (first back null))
      → has p (front ++ (a, w) ∷ back) ≡ false
      → Chain.Chain (put h a (some (node w p))) (front ++ (a, w) ∷ (p, v) ∷ back) null
  insert_after p v c live here out =
      let (_, d, _) = Chain.Chain-split h front ((a, w) ∷ back) null c in
      let out' : has p back ≡ false = ground (arith, has-append p front ((a, w) ∷ back)) in
      relink ((p, v) ∷ back) c (live, here, out', d.3) (apart c out)
    where
      apart :
          Chain.Chain h (front ++ (a, w) ∷ back) null
          → has p (front ++ (a, w) ∷ back) ≡ false
          → Disjoint (front ++ (a, w) ∷ []) ((p, v) ∷ back)
      apart c out b i = ground (arith, snoc_Disjoint c b i, has_snoc b i)

  -- The node `t` behind `a` is cut out and freed.
  pub cut_after :
      (t : Ptr) (u : ℤ) (rest : Cells)
      → back ≡ (t, u) ∷ rest
      → Chain.Chain h (front ++ (a, w) ∷ back) null
      → Chain.Chain
          (put (put h a (some (node w (first rest null)))) t none)
          (front ++ (a, w) ∷ rest)
          null
  cut_after t u rest e c =
      let (_, d, apart) = Chain.Chain-split h front ((a, w) ∷ back) null c in
      let b : Chain.Chain h ((t, u) ∷ rest) null = subst (λ l. Chain.Chain h l null) e (d.3) in
      let linked = relink rest c (b.3) (λ x i. not_rest x (snoc_Disjoint c x i)) in
      Chain.Chain-put _ t none (front ++ (a, w) ∷ rest) null linked (not_left (d.2) (apart t) (b.2))
    where
      not_rest : (x : Ptr) → has x back ≡ false → has x rest ≡ false
      not_rest x o = ground (arith, ap (has x) e)

      not_left :
          has a back ≡ false
          → (has t front ≡ true → has t ((a, w) ∷ back) ≡ false)
          → has t rest ≡ false
          → has t (front ++ (a, w) ∷ rest) ≡ false
      not_left x y z =
          ground (arith, ap (has t) e, ap (has a) e, has-append t front ((a, w) ∷ rest))
