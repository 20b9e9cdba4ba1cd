-- ===== src/StackQueue/Queue/Refine.antt =====
-- Any sequence of calls on a queue answers as a list with its head first.
use c_programming.Prelude.{
  ◌+◌, ◌≤◌, ◌≡◌, refl, true, false, Option, List, [], ◌∷◌, ◌++◌, ◌==◌, arith, length, length-append,
  subst,
}
use c_programming.Prelude.Int.{ℤ}
use c_programming.Nodes.{Heap, Cmd, pure, int_max, ◌>>=◌}
use c_programming.Nodes.Chain.{Cells, values, values-append}
use c_programming.StackQueue.Calls.{
  Call, Reply, Operations, Supplied, answers, Replies, Replies-then,
}
use c_programming.StackQueue.Queue.{Queue, enqueue, dequeue, peek, is_empty}
use c_programming.StackQueue.Queue.Laws.{
  IsQueue, enqueue-Enqueued, dequeue-IsQueue, peek-IsQueue, dequeue-nil,
}

unfoldable pub run : List Call → Queue → Cmd (List Reply)
run [] q = pure []
run (Call.add p v ∷ cs) q = do q' ← enqueue p q v; run cs q'
run (Call.take ∷ cs) q = do (v, q') ← dequeue q; rest ← run cs q'; pure (Reply.value v ∷ rest)
run (Call.peek ∷ cs) q = do v ← peek q; rest ← run cs q; pure (Reply.value v ∷ rest)
run (Call.is_empty ∷ cs) q = do rest ← run cs q; pure (Reply.truth (is_empty q) ∷ rest)

abbrev pub fifo : List ℤ → List Call → Option (List Reply)
fifo vs cs = answers (λ v ws. ws ++ v ∷ []) vs cs

abbrev pub operations : Operations Queue
operations = record { insert = enqueue; remove = dequeue }

-- As long as `malloc` answers with addresses that are not in use then and the size stays an `int`, every
-- sequence of calls on a queue gets the replies of a list to whose end values are added and from whose
-- front they are taken: first in, first out. It ends the program exactly where a value is asked of the
-- empty list.
pub run-fifo :
    (cs : List Call) (h : Heap) (q : Queue) (xs : Cells)
    → IsQueue h q xs
    → Supplied operations cs q h
    → length xs + length cs ≤ int_max
    → Replies (run cs q h) (fifo (values xs) cs)
unfolding run answers
run-fifo [] h q xs is new small = ([], h, refl, refl)
run-fifo (Call.add p v ∷ cs) h q xs is (fresh, new) small =
    let (q', g, done, (is', same)) = enqueue-Enqueued h p v fresh q xs is (omega arith) in
    let ys = xs ++ (p, v) ∷ [] in
    rw done (
      subst (λ l. Replies (run cs q' g) (fifo l cs)) (values-append xs ((p, v) ∷ []))
        (run-fifo cs g q' ys is' (rw done at new) (omega (arith, length-append xs ((p, v) ∷ [])))))
run-fifo (Call.take ∷ cs) h q [] is new small = rw ((dequeue-nil h q is).0)
run-fifo (Call.take ∷ cs) h q ((p, v) ∷ xs) is new small =
    let ((r, q'), g, done, (same, is', heap)) = dequeue-IsQueue h q p v xs is in
    rw (done, same)
      (Replies-then (Reply.value v) (run cs q' g) (fifo (values xs) cs)
        (run-fifo cs g q' xs is' (rw done at new) (omega arith)))
run-fifo (Call.peek ∷ cs) h q [] is new small = rw ((dequeue-nil h q is).1)
run-fifo (Call.peek ∷ cs) h q ((p, v) ∷ xs) is new small = rw (peek-IsQueue h q p v xs is) (
    Replies-then (Reply.value v) (run cs q h) (fifo (v ∷ values xs) cs)
      (run-fifo cs h q ((p, v) ∷ xs) is new (omega arith)))
run-fifo (Call.is_empty ∷ cs) h q [] is new small =
    let emptied : (q.size == 0) ≡ true = ground (arith, is.size) in
    rw emptied (
      Replies-then (Reply.truth true) (run cs q h) (fifo [] cs)
        (run-fifo cs h q [] is new (omega arith)))
run-fifo (Call.is_empty ∷ cs) h q ((p, v) ∷ xs) is new small =
    let filled : (q.size == 0) ≡ false = ground (arith, is.size) in
    rw filled (
      Replies-then (Reply.truth false) (run cs q h) (fifo (v ∷ values xs) cs)
        (run-fifo cs h q ((p, v) ∷ xs) is new (omega arith)))
