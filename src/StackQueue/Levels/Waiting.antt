-- ===== src/StackQueue/Levels/Waiting.antt =====
-- The cells that wait in the queue of `bfs_order`.
use c_programming.Prelude.{
  ℕ, zero, suc, ◌+◌, ◌/◌, ◌≤◌, ◌<◌, ◌≡◌, ◌≢◌, refl, ap, ◌∙◌, false, none, [], ◌∷◌, ◌++◌, ◌==◌,
  arith, length, subst,
}
use c_programming.Prelude.Int.{pos}
use c_programming.Nodes.{Ptr, Heap, put, IsFresh, int_max, Ends}
use c_programming.Nodes.Chain.{Cells, has}
use c_programming.StackQueue.Queue.{Queue, enqueue, dequeue}
use c_programming.StackQueue.Queue.Laws.{IsQueue, enqueue-Enqueued, dequeue-IsQueue}

-- The cells of `k` nodes from `v` on; the request with the number of a node answers its cell.
abbrev pub nodes : (ℕ → Ptr) → ℕ → ℕ → Cells
nodes malloc v zero = []
nodes malloc v (suc k) = (malloc v, pos v) ∷ nodes malloc (v + 1) k

-- What `malloc` answers to the request for node `i`, up to `m`: an address that is not null and not in
-- use then. What is in use is what was in use at the start, and the cells of the nodes that wait in the
-- queue: those after the parent `i / 2`, which has left it, and before `i`. The cell of a node that has
-- left the queue may be answered again.
pub record Supply (h : Heap) (malloc : ℕ → Ptr) (m : ℕ) : Type 0 where
  pub fresh : (i : ℕ) → i ≤ m → IsFresh h (malloc i)
  pub in_use : (i j : ℕ) → i ≤ m → i / 2 < j → j < i → malloc i ≢ malloc j

module _ (h : Heap) (malloc : ℕ → Ptr) (m : ℕ) (supply : Supply h malloc m) where
  nodes_snoc :
      (v k : ℕ) → nodes malloc v k ++ (malloc (v + k), pos (v + k)) ∷ [] ≡ nodes malloc v (suc k)
  nodes_snoc v zero = let e : v + 0 ≡ v = omega arith in rw e refl
  nodes_snoc v (suc k) =
      let e : v + suc k ≡ v + 1 + k = omega arith in
      rw e (ap (λ l. (malloc v, pos v) ∷ l) (nodes_snoc (v + 1) k))

  pub length-nodes : (v k : ℕ) → length (nodes malloc v k) ≡ k
  length-nodes v zero = refl
  length-nodes v (suc k) = ap suc (length-nodes (v + 1) k)

  has-nodes :
      (i v k : ℕ) → i ≤ m → i / 2 < v → v + k ≤ i → has (malloc i) (nodes malloc v k) ≡ false
  has-nodes i v zero inside after out = refl
  has-nodes i v (suc k) inside after out =
      let other = supply.in_use i v inside after (omega arith) in
      let apart : (malloc i == malloc v) ≡ false = ground (arith, other) in
      rw apart (has-nodes i (v + 1) k inside (omega arith) (omega arith))

  -- The queue holds `k` nodes from `v` on, and no other node has changed.
  pub record Waiting (g : Heap) (q : Queue) (v k : ℕ) : Type 0 where
    pub is : IsQueue g q (nodes malloc v k)
    pub same : (a : Ptr) → has a (nodes malloc v k) ≡ false → g a ≡ h a

  pub enqueue-Waiting :
      (g : Heap) (q : Queue) (v k : ℕ)
      → Waiting g q v k
      → v + k ≤ m
      → k < v
      → k < int_max
      → Ends (enqueue (malloc (v + k)) q (pos (v + k)) g) (λ q' g'. Waiting g' q' v (suc k))
  enqueue-Waiting g q v k w inside near small =
      let new : IsFresh g (malloc (v + k)) = record {
        ne_null = (supply.fresh (v + k) inside).ne_null;
        unused =
            w.same (malloc (v + k)) (has-nodes (v + k) v k inside (omega arith) (omega arith))
            ∙ (supply.fresh (v + k) inside).unused;
      } in
      let (q', g', run, (is', kept)) =
        enqueue-Enqueued g (malloc (v + k)) (pos (v + k)) new q (nodes malloc v k) w.is
          (omega (arith, length-nodes v k)) in
      (
        q',
        g',
        run,
        record {
          is = subst (λ l. IsQueue g' q' l) (nodes_snoc v k) is';
          same = λ a out. kept a (ap (has a) (nodes_snoc v k) ∙ out) ∙ w.same a (shorter a v k out);
        },
      )
    where
      shorter :
          (a : Ptr) (v k : ℕ)
          → has a (nodes malloc v (suc k)) ≡ false
          → has a (nodes malloc v k) ≡ false
      shorter a v zero out = refl
      shorter a v (suc k) out = ground (arith, shorter a (v + 1) k)

  pub dequeue-Waiting :
      (g : Heap) (q : Queue) (v k : ℕ)
      → v ≤ m
      → Waiting g q v (suc k)
      → Ends (dequeue q g) (λ (r, q') g'. (r ≡ pos v) × Waiting g' q' (v + 1) k)
  unfolding put
  dequeue-Waiting g q v k inside w =
      let (r, g', run, (value, is', heap)) =
        dequeue-IsQueue g q (malloc v) (pos v) (nodes malloc (v + 1) k) w.is in
      (r, g', run, (value, record { is = is'; same = λ a out. heap a ∙ left a out }))
    where
      left : (a : Ptr) → has a (nodes malloc (v + 1) k) ≡ false → put g (malloc v) none a ≡ h a
      left a out = ground (arith, w.same a, (supply.fresh v inside).unused)
