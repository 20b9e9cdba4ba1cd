-- ===== src/StackQueue/Levels/Order.antt =====
-- `bfs_order` visits a complete binary tree level by level.
use c_programming.Prelude.{
  ℕ, zero, suc, ◌+◌, ◌-◌, ◌*◌, ◌≤◌, ◌<◌, ◌≡◌, refl, sym, ap, ◌∙◌, Bool, true, false, some, [], ◌∷◌,
  ◌++◌, ◌==◌, ◌&&◌, not, arith, if◌then◌else◌, leb, ltb, Bool-cases, inl, inr, subst,
}
use c_programming.Prelude.Int.{ℤ, pos, leb_ℤ}
use c_programming.Prelude.Ints.{add_int, mul_int, int_end, add_int_pos, mul_int_pos}
use c_programming.Nodes.{Ptr, null, Heap, Run, int_max, Ends}
use c_programming.StackQueue.Queue.{Queue, queue, create, dequeue}
use c_programming.StackQueue.Queue.Laws.{destroy-freed_queue}
use c_programming.StackQueue.Levels.{level, number, enqueue_child, visit, bfs_loop, bfs_order}
use c_programming.StackQueue.Levels.Waiting.{
  Supply, Waiting, length-nodes, enqueue-Waiting, dequeue-Waiting,
}
use c_programming.StackQueue.Levels.Rows.{
  count_up, rows, row_size, tree_size, top, rows_end, shown_next, top_of, top_over, top_above,
  not_empty, in_tree, has_root, from_root, with_left, left_next, right_next, both_next, near, few,
  row_over, row_ends, next_row, at_end, not_at_end,
}

-- The calls of a visit, one after the other.
visit-runs :
    (malloc : ℕ → Ptr) (n : ℤ) (v : ℕ) (q q1 q2 q3 : Queue) (a1 a2 a3 : ℕ) (g g1 g2 g3 : Heap)
    → 2 * v + 1 ≤ int_max
    → dequeue q g ≡ Run.ok (pos v, q1) g1
    → enqueue_child malloc n q1 a1 (pos (2 * v)) g1 ≡ Run.ok (q2, a2) g2
    → enqueue_child malloc n q2 a2 (pos (2 * v + 1)) g2 ≡ Run.ok (q3, a3) g3
    → visit malloc n q a1 g ≡ Run.ok (pos v, q3, a3) g3
unfolding visit
visit-runs malloc n v q q1 q2 q3 a1 a2 a3 g g1 g2 g3 small run1 run2 run3 =
    let left : mul_int (pos 2) (pos v) ≡ some (pos (2 * v)) =
      mul_int_pos 2 v ∙ (let fits : ltb (2 * v) int_end ≡ true = ground arith in rw fits refl) in
    let right : add_int (pos (2 * v)) (pos 1) ≡ some (pos (2 * v + 1)) =
      add_int_pos (2 * v) 1
      ∙ (let fits : ltb (2 * v + 1) int_end ≡ true = ground arith in rw fits refl) in
    rw (run1, left, right, run2, run3) refl

module _ (h : Heap) (malloc : ℕ → Ptr) (n : ℤ) (m : ℕ) (supply : Supply h malloc m)
    (small : 2 * m + 1 ≤ int_max) (same : (c : ℕ) → 2 ≤ c → leb_ℤ (pos c) n ≡ leb c m) where
  -- A child `c` is the next node where it is in the tree.
  child-Waiting :
      (g : Heap) (q : Queue) (v k c : ℕ) (inside : Bool)
      → Waiting h malloc m supply g q v k
      → leb_ℤ (pos c) n ≡ inside
      → (inside ≡ true → c ≡ v + k)
      → (inside ≡ true → c ≤ m)
      → k < v
      → k < int_max
      → Ends (enqueue_child malloc n q (v + k) (pos c) g) (λ (q', asked) g'.
        let k' = if inside then suc k else k in
        Waiting h malloc m supply g' q' v k' × (asked ≡ v + k'))
  unfolding enqueue_child
  child-Waiting g q v k c true w here next in_tree near few =
      let (q', g', run, w') =
        enqueue-Waiting h malloc m supply g q v k w (omega (arith, next refl, in_tree refl)) near
          few in
      rw (here, next refl, run) ((q', v + k + 1), g', refl, (w', omega arith))
  child-Waiting g q v k c false w here next in_tree near few =
      rw here ((q, v + k), g, refl, (w, refl))

  -- The children of a node that has come out of the queue go in.
  children-Waiting :
      (g : Heap) (q : Queue) (v k : ℕ)
      → 1 ≤ v
      → v ≤ m
      → top m v ≡ v + k
      → Waiting h malloc m supply g q (v + 1) k
      → (q2 : Queue) × (a2 : ℕ) × (g2 : Heap) × (enqueue_child malloc n q
            (suc (top m v))
            (pos (2 * v))
            g
          ≡ Run.ok (q2, a2) g2)
        × Ends (enqueue_child malloc n q2 a2 (pos (2 * v + 1)) g2) (λ (q3, a3) g3.
          Waiting h malloc m supply g3 q3 (v + 1) (suc (top m (v + 1)) - (v + 1))
          × (a3 ≡ suc (top m (v + 1))))
  children-Waiting g q v k from inside e w =
      let asked : v + 1 + k ≡ suc (top m v) = omega (arith, e) in
      let (near1, near2) = near m v k from inside e in
      let (few1, few2) = few m v k from inside e small in
      let ((q2, a2), g2, run, (w2, e2)) =
        child-Waiting g q (v + 1) k (2 * v) (leb (2 * v) m) w (same (2 * v) (omega arith))
          (left_next m v k from inside e) (λ i. ground (arith, i)) near1 few1 in
      let k2 = with_left m v k from inside e in
      let ((q3, a3), g3, run3, (w3, e3)) =
        child-Waiting g2 q2 (v + 1) k2 (2 * v + 1) (leb (2 * v + 1) m) w2
          (same (2 * v + 1) (omega arith)) (right_next m v k from inside e) (λ i. ground (arith, i))
          near2 few2 in
      let last = both_next m v k from inside e in
      let above = top_above m v inside in
      (
        q2,
        a2,
        g2,
        subst (λ a. enqueue_child malloc n q a (pos (2 * v)) g ≡ Run.ok (q2, a2) g2) asked run,
        (
          (q3, a3),
          g3,
          subst (λ a. enqueue_child malloc n q2 a (pos (2 * v + 1)) g2 ≡ Run.ok (q3, a3) g3)
              (sym e2) run3,
          (
            subst (λ k. Waiting h malloc m supply g3 q3 (v + 1) k) last w3,
            e3 ∙ ap (λ k. v + 1 + k) last ∙ omega (arith, above),
          ),
        ),
      )

  -- A round of the loop with `v` at the head of the queue.
  visit-Waiting :
      (v : ℕ) (g : Heap) (q : Queue)
      → 1 ≤ v
      → v ≤ m
      → Waiting h malloc m supply g q v (suc (top m v) - v)
      → (q3 : Queue) × (g3 : Heap) × Waiting h malloc m supply g3 q3
          (v + 1)
          (suc (top m (v + 1)) - (v + 1))
        × (visit malloc n q (suc (top m v)) g ≡ Run.ok (pos v, q3, suc (top m (v + 1))) g3)
  visit-Waiting v g q from inside w =
      let k : ℕ = top m v - v in
      let above : v ≤ top m v = ground arith in
      let some_wait : suc (top m v) - v ≡ suc k = omega (arith, above) in
      let w0 = subst (λ k. Waiting h malloc m supply g q v k) some_wait w in
      let ((r, q1), g1, run1, (value, w1)) = dequeue-Waiting h malloc m supply g q v k inside w0 in
      let (q2, a2, g2, run2, ((q3, a3), g3, run3, (w3, e3))) =
        children-Waiting g1 q1 v k from inside (omega (arith, above)) w1 in
      (
        q3,
        g3,
        w3,
        visit-runs malloc n v q q1 q2 q3 (suc (top m v)) a2 (suc (top m (v + 1))) g g1 g2 g3
            (omega arith) (subst (λ r. dequeue q g ≡ Run.ok (r, q1) g1) value run1) run2
            (subst (λ a. enqueue_child malloc n q2 a2 (pos (2 * v + 1)) g2 ≡ Run.ok (q3, a) g3) e3
              run3),
      )

  loop-rows :
      (rounds v b printed size depth f : ℕ) (g : Heap) (q : Queue)
      → m + 1 < v + rounds
      → v ≡ b + printed
      → v ≤ m + 1
      → 1 ≤ b
      → m < 2 * b + f
      → size ≡ row_size m b
      → printed ≤ size
      → (v ≤ m → printed < size)
      → Waiting h malloc m supply g q v (suc (top m v) - v)
      → Ends (bfs_loop rounds malloc n q (suc (top m v)) depth size printed g) (λ (q', out) g'.
        Waiting h malloc m supply g' q' (m + 1) 0
        × (out ≡ count_up v (size - printed) ++ rows f m (2 * b) (depth + 1)))
  unfolding bfs_loop
  loop-rows zero v b printed size depth f g q fuel at in_tree from levels row low more w =
      absurd (omega arith)
  loop-rows (suc rounds) v b printed size depth f g q fuel at in_tree from levels row low more w =
      elim (Bool-cases (leb v m)) [
        | inr over ↦
            let e : v ≡ m + 1 = ground arith in
            let (done, last) = row_over m v b printed size at row e low in
            let none_wait : suc (top m v) - v ≡ 0 = top_over m v e in
            let w0 = subst (λ k. Waiting h malloc m supply g q v k) none_wait w in
            let emptied : (q.size == 0) ≡ true = rw (w0.is.size) refl in
            rw (emptied, done, rows_end f m (2 * b) (depth + 1) last)
              ((q, []), g, refl, (subst (λ v. Waiting h malloc m supply g q v 0) e w0, refl))
        | inl inside ↦
            let within : v ≤ m = ground arith in
            let one : 1 ≤ v = omega arith in
            let size_is = w.is.size ∙ length-nodes h malloc m supply v (suc (top m v) - v) in
            let filled = not_empty q.size (suc (top m v) - v) size_is ((top_of m v within one).0) in
            let (q3, g3, w3, run) = visit-Waiting v g q one within w in
            let size3_is =
              w3.is.size ∙ length-nodes h malloc m supply (v + 1) (suc (top m (v + 1)) - (v + 1)) in
            elim (Bool-cases ((printed + 1 == size) && not (q3.size == 0))) [
              | inl ends ↦
                  let (inner, full, waits) =
                    at_end m v printed size q3.size within one size3_is ends in
                  let turn = row_ends m v b printed size at row inner full in
                  let ((q', out), g', run', (w', shown)) =
                    loop-rows rounds (v + 1) (2 * b) 0 q3.size (depth + 1) (f - 1) g3 q3
                      (omega arith) (omega (arith, turn)) (omega (arith, inner)) (omega arith)
                      (omega arith) (size3_is ∙ next_row m v b printed size at row inner turn)
                      (omega arith) (λ _. waits) w3 in
                  let one_left : size - printed ≡ 1 = omega (arith, full) in
                  rw (filled, run, ends, run', one_left)
                    (
                      (q', number (pos v) ∷ level (depth + 1) ∷ out),
                      g',
                      refl,
                      (
                        w',
                        ap (λ l. number (pos v) ∷ l)
                            (shown_next f m (2 * b) (depth + 1) (v + 1) q3.size out turn
                              (size3_is ∙ next_row m v b printed size at row inner turn)
                              (omega (arith, turn, inner)) levels shown),
                      ),
                    )
              | inr on ↦
                  let room : printed < size = more within in
                  let ((q', out), g', run', (w', shown)) =
                    loop-rows rounds (v + 1) b (printed + 1) size depth f g3 q3 (omega arith)
                      (omega arith) (omega arith) from levels row (omega (arith, room))
                      (λ i.
                        not_at_end m v printed size q3.size within one size3_is on
                          (omega (arith, i)) room)
                      w3 in
                  let one_more : size - printed ≡ suc (size - (printed + 1)) =
                    omega (arith, room) in
                  rw (filled, run, on, run', one_more)
                    ((q', number (pos v) ∷ out), g', refl, (w', ap (λ l. number (pos v) ∷ l) shown))
            ]
      ]

-- Where `malloc` answers addresses that are not in use then, and the children of the last node are an
-- `int`, bfs_order ends within a round for each node of the tree and one more. It prints the nodes 1, 2,
-- 3 up to `n` (1 alone for an `n` below 1) in rows: row `l` under its title, from node 2 ^ l on, as many
-- as its number or as are left. All nodes of the queue are freed.
pub bfs_order-rows :
    (h : Heap) (malloc : ℕ → Ptr) (n : ℤ)
    → Supply h malloc (tree_size n)
    → 2 * tree_size n + 1 ≤ int_max
    → Ends
        (bfs_order (tree_size n + 1) malloc n h)
        (λ out g. (out ≡ rows (tree_size n) (tree_size n) 1 0) × ((a : Ptr) → g a ≡ h a))
unfolding bfs_order create
bfs_order-rows h malloc n supply small =
    let m = tree_size n in
    let positive = has_root n in
    let not_null : (malloc 0 == null) ≡ false =
      ground (arith, (supply.fresh 0 (omega arith)).ne_null) in
    let (q1, g1, run1, w1) =
      enqueue-Waiting h malloc m supply h (queue null null 0) 1 0
        (record {
          is = record { head = refl; tail = refl; size = refl; chain = tt };
          same = λ a o. refl;
        })
        positive (omega arith) (omega arith) in
    let (one, row) = from_root m positive in
    let w0 = subst (λ t. Waiting h malloc m supply g1 q1 1 (suc t - 1)) (sym one) w1 in
    let ((q2, out), g2, run2, (w2, shown)) =
      loop-rows h malloc n m supply small (in_tree n) (m + 1) 1 1 0 1 0 (m - 1) g1 q1 (omega arith)
        refl (omega arith) (omega arith) (omega (arith, positive)) row (omega arith)
        (λ _. omega arith) w0 in
    let run2' =
      subst (λ t. bfs_loop (m + 1) malloc n q1 (suc t) 0 1 0 g1 ≡ Run.ok (q2, out) g2) one run2 in
    let (_, g3, run3, same) = destroy-freed_queue g2 q2 [] w2.is in
    (
      level 0 ∷ out,
      g3,
      rw (not_null, run1, run2', run3) refl,
      (
        shown_next m m 1 0 1 1 out refl row positive (omega arith) shown,
        λ a. same a ∙ w2.same a refl,
      ),
    )
