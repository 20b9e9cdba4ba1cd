-- ===== src/StackQueue/Queue/Laws.antt =====
-- What each function does to a queue of given cells.
use c_programming.Prelude.{
  ℕ, zero, suc, ◌+◌, ◌-◌, ◌<◌, ◌≡◌, refl, true, false, none, some, [], ◌∷◌, ◌++◌, ◌==◌, arith,
  length, length-append, if◌then◌else◌, ap, sym, subst, ◌∙◌,
}
use mathlib.Core.List.{append_assoc}
use c_programming.Prelude.Int.{ℤ}
use c_programming.Nodes.{
  Ptr, null, Heap, ok, exited, node, put, IsFresh, int_max, Ends, node_create, increment-ok,
}
use c_programming.Nodes.Chain
use c_programming.Nodes.Chain.{
  Cells, has, first, values, load-ok, set_next-ok, free-ok, has_of_none, has-append, first-append,
}
use c_programming.Nodes.Links.{insert_after, at_live}
use c_programming.StackQueue.Queue.{
  Queue, queue, enqueue, dequeue, peek, drain, destroy, print, print_loop, link,
}

-- The address of the last cell, or null.
abbrev pub last : Cells → Ptr
last [] = null
last ((p, v) ∷ []) = p
last (c ∷ d ∷ xs) = last (d ∷ xs)

-- `q` is the queue of the cells `xs`, the head first.
pub record IsQueue (h : Heap) (q : Queue) (xs : Cells) : Type 0 where
  pub head : q.head ≡ first xs null
  pub tail : q.tail ≡ last xs
  pub size : q.size ≡ length xs
  pub chain : Chain.Chain h xs null

last_split :
    (c : Ptr × ℤ) (xs : Cells)
    → (front : Cells) × (at : Ptr × ℤ) × (c ∷ xs ≡ front ++ at ∷ []) × (last (c ∷ xs) ≡ at.0)
last_split c [] = ([], c, refl, refl)
last_split c (d ∷ xs) =
    let (front, at, e, l) = last_split d xs in (c ∷ front, at, ap (λ l. c ∷ l) e, l)

last_snoc : (p : Ptr) (v : ℤ) (xs : Cells) → last (xs ++ (p, v) ∷ []) ≡ p
last_snoc p v [] = refl
last_snoc p v (c ∷ []) = refl
last_snoc p v (c ∷ d ∷ xs) = last_snoc p v (d ∷ xs)

-- What an insertion leaves: the queue of the cells `ys`, and all other nodes as they were.
abbrev pub Enqueued : Heap → Cells → Queue → Heap → Type 0
Enqueued h ys q g = IsQueue g q ys × ((a : Ptr) → has a ys ≡ false → g a ≡ h a)

module _ (h : Heap) (p : Ptr) (v : ℤ) (new : IsFresh h p) where
  enqueue_nil : (q : Queue) → IsQueue h q [] → Ends (enqueue p q v h) (Enqueued h ((p, v) ∷ []))
  unfolding enqueue link node_create put
  enqueue_nil q is =
      let not_null : (p == null) ≡ false = ground (arith, new.ne_null) in
      let none_yet : (q.tail == null) ≡ true = ground (arith, is.tail) in
      (
        queue p p (q.size + 1),
        put h p (some (node v null)),
        rw (not_null, none_yet, increment-ok q.size _ (omega (arith, is.size))),
        (
          record {
            head = refl;
            tail = refl;
            size = omega (arith, is.size);
            chain = (new.ne_null, ground arith, refl, tt);
          },
          λ a o. ground arith,
        ),
      )

  enqueue_cons :
      (q : Queue) (c : Ptr × ℤ) (xs : Cells)
      → IsQueue h q (c ∷ xs)
      → suc (length xs) < int_max
      → Ends (enqueue p q v h) (Enqueued h ((c ∷ xs) ++ (p, v) ∷ []))
  unfolding enqueue link node_create put
  enqueue_cons q c xs is small =
      let created : Heap = put h p (some (node v null)) in
      let (front, at, e, l) = last_split c xs in
      let out : has p (c ∷ xs) ≡ false = has_of_none h p (c ∷ xs) null is.chain new.unused in
      let chain = Chain.Chain-put h p (some (node v null)) (c ∷ xs) null is.chain out in
      let chain' = subst (λ l. Chain.Chain created l null) e chain in
      let (live, here) = at_live created front (at.0) (at.1) [] chain' in
      let not_null : (p == null) ≡ false = ground (arith, new.ne_null) in
      let some_tail : (q.tail == null) ≡ false = ground (arith, live, is.tail, l) in
      let g : Heap = put created (at.0) (some (node (at.1) p)) in
      let q' = queue q.head p (q.size + 1) in
      let end : front ++ at ∷ (p, v) ∷ [] ≡ (c ∷ xs) ++ (p, v) ∷ [] =
        sym (append_assoc front (at ∷ []) ((p, v) ∷ [])) ∙ ap (λ l. l ++ (p, v) ∷ []) (sym e) in
      let hung =
        insert_after created front (at.0) (at.1) [] p v chain' new.ne_null (ground arith)
          (subst (λ l. has p l ≡ false) e out) in
      (
        q',
        g,
        rw (
          not_null,
          some_tail,
          is.tail,
          l,
          set_next-ok created live here,
          increment-ok q.size _ (omega (arith, is.size)),
        ),
        (
          record {
            head = is.head;
            tail = sym (last_snoc p v (c ∷ xs));
            size = omega (arith, is.size, length-append (c ∷ xs) ((p, v) ∷ []));
            chain = subst (λ l. Chain.Chain g l null) end hung;
          },
          λ a o. same front at a (subst (λ l. has a l ≡ false) (sym end) o),
        ),
      )
    where
      same :
          (front : Cells) (at : Ptr × ℤ) (a : Ptr)
          → has a (front ++ at ∷ (p, v) ∷ []) ≡ false
          → put (put h p (some (node v null))) (at.0) (some (node (at.1) p)) a ≡ h a
      same front at a o = ground (arith, has-append a front (at ∷ (p, v) ∷ []))

  -- `queue_enqueue` ends without error in the queue with one more cell at the tail, and changes no
  -- other node.
  pub enqueue-Enqueued :
      (q : Queue) (xs : Cells)
      → IsQueue h q xs
      → length xs < int_max
      → Ends (enqueue p q v h) (Enqueued h (xs ++ (p, v) ∷ []))
  enqueue-Enqueued q [] is small = enqueue_nil q is
  enqueue-Enqueued q (c ∷ xs) is small = enqueue_cons q c xs is small

tail_of_rest :
    (h : Heap) (p : Ptr) (v : ℤ) (xs : Cells)
    → Chain.Chain h xs null
    → (if first xs null == null then null else last ((p, v) ∷ xs)) ≡ last xs
tail_of_rest h p v [] c = refl
tail_of_rest h p v ((q, w) ∷ xs) c = let live : (q == null) ≡ false = ground (arith, c.0) in rw live

-- `queue_dequeue` takes off the head cell: it returns its value and frees its node, and no other
-- node changes. The tail is reset with the last cell.
pub dequeue-IsQueue :
    (h : Heap) (q : Queue) (p : Ptr) (v : ℤ) (xs : Cells)
    → IsQueue h q ((p, v) ∷ xs)
    → Ends
        (dequeue q h)
        (λ (r, q') g. (r ≡ v) × IsQueue g q' xs × ((a : Ptr) → g a ≡ put h p none a))
unfolding dequeue
dequeue-IsQueue h q p v xs is =
    let c = is.chain in
    let filled : (q.size == 0) ≡ false = ground (arith, is.size) in
    (
      (v, queue (first xs null) (if first xs null == null then null else q.tail) (q.size - 1)),
      put h p none,
      rw (filled, is.head, load-ok h (c.0) (c.1), free-ok h (c.0) (c.1)),
      (
        refl,
        record {
          head = refl;
          tail = rw is.tail (tail_of_rest h p v xs (c.3));
          size = omega (arith, is.size);
          chain = Chain.Chain-put h p none xs null (c.3) (c.2);
        },
        λ a. refl,
      ),
    )

-- `queue_peek` returns the value of the head cell and changes nothing.
pub peek-IsQueue :
    (h : Heap) (q : Queue) (p : Ptr) (v : ℤ) (xs : Cells)
    → IsQueue h q ((p, v) ∷ xs)
    → peek q h ≡ ok v h
unfolding peek
peek-IsQueue h q p v xs is =
    let c = is.chain in
    let filled : (q.size == 0) ≡ false = ground (arith, is.size) in
    rw (filled, is.head, load-ok h (c.0) (c.1))

-- On an empty queue both end the program.
pub dequeue-nil :
    (h : Heap) (q : Queue) → IsQueue h q [] → (dequeue q h ≡ exited) × (peek q h ≡ exited)
unfolding dequeue peek
dequeue-nil h q is =
    let emptied : (q.size == 0) ≡ true = ground (arith, is.size) in (rw emptied, rw emptied)

drain-freed :
    (k : ℕ) (h : Heap) (q : Queue) (xs : Cells)
    → IsQueue h q xs
    → length xs < k
    → Ends (drain k q h) (λ _ g. (a : Ptr) → g a ≡ (if has a xs then none else h a))
unfolding drain put
drain-freed zero h q xs is fuel = absurd (omega arith)
drain-freed (suc k) h q [] is fuel =
    let emptied : (q.size == 0) ≡ true = ground (arith, is.size) in (tt, h, rw emptied, λ a. refl)
drain-freed (suc k) h q ((p, v) ∷ xs) is fuel =
    let ((r, q'), g, run, (_, is', heap)) = dequeue-IsQueue h q p v xs is in
    let (_, g', run', freed) = drain-freed k g q' xs is' (omega arith) in
    let filled : (q.size == 0) ≡ false = ground (arith, is.size) in
    (tt, g', rw (filled, run) run', λ a. ground (arith, freed a, heap a))

-- `queue_free` ends without error and frees exactly the nodes of the queue.
pub destroy-freed_queue :
    (h : Heap) (q : Queue) (xs : Cells)
    → IsQueue h q xs
    → Ends (destroy q h) (λ _ g. (a : Ptr) → g a ≡ (if has a xs then none else h a))
unfolding destroy
destroy-freed_queue h q xs is = drain-freed (q.size + 1) h q xs is (omega (arith, is.size))

print_loop-values :
    (k : ℕ) (h : Heap) (xs : Cells)
    → Chain.Chain h xs null
    → length xs < k
    → print_loop k (first xs null) h ≡ ok (values xs) h
unfolding print_loop
print_loop-values zero h xs c fuel = absurd (omega arith)
print_loop-values (suc k) h [] c fuel = refl
print_loop-values (suc k) h ((p, v) ∷ xs) c fuel =
    let live : (p == null) ≡ false = ground (arith, c.0) in
    rw (live, load-ok h (c.0) (c.1), print_loop-values k h xs (c.3) (omega arith))

-- `queue_print` prints the values from the head on, and the size.
pub print-values_queue :
    (h : Heap) (q : Queue) (xs : Cells) → IsQueue h q xs → print q h ≡ ok (values xs, length xs) h
unfolding print
print-values_queue h q xs is =
    rw (is.head, print_loop-values (q.size + 1) h xs is.chain (omega (arith, is.size)), is.size)
