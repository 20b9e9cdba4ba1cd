-- ===== src/StackQueue/Stack/Refine.antt =====
-- Any sequence of calls on a stack answers as a list with its top first.
use c_programming.Prelude.{
  ◌+◌, ◌≤◌, ◌≡◌, refl, true, false, Option, List, [], ◌∷◌, ◌==◌, arith, length,
}
use c_programming.Prelude.Int.{ℤ}
use c_programming.Nodes.{Heap, Cmd, pure, int_max, ◌>>=◌}
use c_programming.Nodes.Chain.{Cells, values}
use c_programming.StackQueue.Calls.{
  Call, Reply, Operations, Supplied, answers, Replies, Replies-then,
}
use c_programming.StackQueue.Stack.{Stack, push, pop, peek, is_empty}
use c_programming.StackQueue.Stack.Laws.{IsStack, push-IsStack, pop-IsStack, peek-IsStack, pop-nil}

unfoldable pub run : List Call → Stack → Cmd (List Reply)
run [] s = pure []
run (Call.add p v ∷ cs) s = do s' ← push p s v; run cs s'
run (Call.take ∷ cs) s = do (v, s') ← pop s; rest ← run cs s'; pure (Reply.value v ∷ rest)
run (Call.peek ∷ cs) s = do v ← peek s; rest ← run cs s; pure (Reply.value v ∷ rest)
run (Call.is_empty ∷ cs) s = do rest ← run cs s; pure (Reply.truth (is_empty s) ∷ rest)

abbrev pub lifo : List ℤ → List Call → Option (List Reply)
lifo vs cs = answers (λ v ws. v ∷ ws) vs cs

abbrev pub operations : Operations Stack
operations = record { insert = push; remove = pop }

-- As long as `malloc` answers with addresses that are not in use then and the size stays an `int`, every
-- sequence of calls on a stack gets the replies of a list whose first value is the top: last in, first
-- out. It ends the program exactly where a value is asked of the empty list.
pub run-lifo :
    (cs : List Call) (h : Heap) (s : Stack) (xs : Cells)
    → IsStack h s xs
    → Supplied operations cs s h
    → length xs + length cs ≤ int_max
    → Replies (run cs s h) (lifo (values xs) cs)
unfolding run answers
run-lifo [] h s xs is new small = ([], h, refl, refl)
run-lifo (Call.add p v ∷ cs) h s xs is (fresh, new) small =
    let (s', g, done, (_, is', heap)) = push-IsStack h s xs is p v fresh (omega arith) in
    rw done (run-lifo cs g s' ((p, v) ∷ xs) is' (rw done at new) (omega arith))
run-lifo (Call.take ∷ cs) h s [] is new small = rw ((pop-nil h s is).0)
run-lifo (Call.take ∷ cs) h s ((p, v) ∷ xs) is new small =
    let ((r, s'), g, done, (same, _, is', heap)) = pop-IsStack h s p v xs is in
    rw (done, same)
      (Replies-then (Reply.value v) (run cs s' g) (lifo (values xs) cs)
        (run-lifo cs g s' xs is' (rw done at new) (omega arith)))
run-lifo (Call.peek ∷ cs) h s [] is new small = rw ((pop-nil h s is).1)
run-lifo (Call.peek ∷ cs) h s ((p, v) ∷ xs) is new small = rw (peek-IsStack h s p v xs is) (
    Replies-then (Reply.value v) (run cs s h) (lifo (v ∷ values xs) cs)
      (run-lifo cs h s ((p, v) ∷ xs) is new (omega arith)))
run-lifo (Call.is_empty ∷ cs) h s [] is new small =
    let emptied : (s.size == 0) ≡ true = ground (arith, is.size) in
    rw emptied (
      Replies-then (Reply.truth true) (run cs s h) (lifo [] cs)
        (run-lifo cs h s [] is new (omega arith)))
run-lifo (Call.is_empty ∷ cs) h s ((p, v) ∷ xs) is new small =
    let filled : (s.size == 0) ≡ false = ground (arith, is.size) in
    rw filled (
      Replies-then (Reply.truth false) (run cs s h) (lifo (v ∷ values xs) cs)
        (run-lifo cs h s ((p, v) ∷ xs) is new (omega arith)))
