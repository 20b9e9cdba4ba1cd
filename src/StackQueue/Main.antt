-- ===== src/StackQueue/Main.antt =====
-- `main` of exercises/16_stack_and_queue/stack_queue.c.
use c_programming.Prelude.{ℕ, zero, suc, ◌+◌, ◌*◌, Bool, if◌then◌else◌, List, [], ◌∷◌, ◌++◌, map}
use c_programming.Prelude.Int.{ℤ, pos}
use c_programming.Nodes.{Ptr, Cmd, pure, out_of_fuel, ◌>>=◌, ◌>>◌}
use c_programming.StackQueue.Stack
use c_programming.StackQueue.Stack.{Stack}
use c_programming.StackQueue.Queue
use c_programming.StackQueue.Queue.{Queue}
use c_programming.StackQueue.Brackets.{brackets_balanced}
use c_programming.StackQueue.Levels.{Item, bfs_order}

-- A line of the output, without the titles: the answer of a test, a value taken or read, or the
-- values and the size that a print shows, or the levels of the tree.
pub data Line : Type 0 where
  truth : Bool → Line
  number : ℤ → Line
  shown : (List ℤ × ℕ) → Line
  levels : List Item → Line

-- `for (int i = 1; i <= 5; i++)`, with `count` rounds to go. `malloc i` is the answer to the
-- request in round `i`.
unfoldable pub push_tens : (ℕ → Ptr) → ℕ → ℕ → Stack → Cmd (Stack × List Line)
push_tens malloc i zero s = pure (s, [])
push_tens malloc i (suc count) s = do
  s ← Stack.push (malloc i) s (pos (i * 10))
  out ← Stack.print s
  (s, rest) ← push_tens malloc (suc i) count s
  pure (s, shown out ∷ rest)

unfoldable pub pop_all : ℕ → Stack → Cmd (Stack × List Line)
pop_all zero s = λ _. out_of_fuel
pop_all (suc k) s = if Stack.is_empty s then pure (s, []) else do
  (v, s) ← Stack.pop s
  out ← Stack.print s
  (s, rest) ← pop_all k s
  pure (s, number v ∷ shown out ∷ rest)

unfoldable pub enqueue_tens : (ℕ → Ptr) → ℕ → ℕ → Queue → Cmd (Queue × List Line)
enqueue_tens malloc i zero q = pure (q, [])
enqueue_tens malloc i (suc count) q = do
  q ← Queue.enqueue (malloc i) q (pos (i * 10))
  out ← Queue.print q
  (q, rest) ← enqueue_tens malloc (suc i) count q
  pure (q, shown out ∷ rest)

unfoldable pub dequeue_all : ℕ → Queue → Cmd (Queue × List Line)
dequeue_all zero q = λ _. out_of_fuel
dequeue_all (suc k) q = if Queue.is_empty q then pure (q, []) else do
  (v, q) ← Queue.dequeue q
  out ← Queue.print q
  (q, rest) ← dequeue_all k q
  pure (q, number v ∷ shown out ∷ rest)

-- "(a + b) * (c - d)", "{[()]}", "([)]", "(((", "", "no brackets at all"
abbrev pub exprs : List (List ℕ)
exprs =
    (b'(' ∷ b'a' ∷ b' ' ∷ b'+' ∷ b' ' ∷ b'b' ∷ b')' ∷ b' ' ∷ b'*' ∷ b' ' ∷ b'(' ∷ b'c' ∷ b' ' ∷ b'-'
      ∷ b' ' ∷ b'd' ∷ b')' ∷ [])
    ∷ (b'{' ∷ b'[' ∷ b'(' ∷ b')' ∷ b']' ∷ b'}' ∷ [])
    ∷ (b'(' ∷ b'[' ∷ b')' ∷ b']' ∷ [])
    ∷ (b'(' ∷ b'(' ∷ b'(' ∷ [])
    ∷ []
    ∷ (b'n' ∷ b'o' ∷ b' ' ∷ b'b' ∷ b'r' ∷ b'a' ∷ b'c' ∷ b'k' ∷ b'e' ∷ b't' ∷ b's' ∷ b' ' ∷ b'a'
        ∷ b't' ∷ b' ' ∷ b'a' ∷ b'l' ∷ b'l' ∷ [])
    ∷ []

-- The request of `malloc 0` is the one for the structure. The tree has 7 nodes.
unfoldable pub main : (ℕ → Ptr) → (ℕ → Ptr) → (ℕ → Ptr) → (ℕ → ℕ) → Cmd (List Line)
main malloc malloc_queue malloc_bfs stk = do
  s ← Stack.create (malloc 0)
  let none_yet = Stack.is_empty s
  (s, pushed) ← push_tens malloc 1 5 s
  top ← Stack.peek s
  (s, popped) ← pop_all (s.size + 1) s
  let all_popped = Stack.is_empty s
  Stack.destroy s
  q ← Queue.create (malloc_queue 0)
  let none_queued = Queue.is_empty q
  (q, queued) ← enqueue_tens malloc_queue 1 5 q
  head ← Queue.peek q
  (q, dequeued) ← dequeue_all (q.size + 1) q
  let all_dequeued = Queue.is_empty q
  Queue.destroy q
  visited ← bfs_order 8 malloc_bfs (pos 7)
  pure (
      truth none_yet
      ∷ (pushed
          ++ number top
            ∷ (popped
                ++ truth all_popped
                  ∷ truth none_queued
                  ∷ (queued
                      ++ number head
                        ∷ (dequeued
                            ++ truth all_dequeued
                              ∷ (map (λ e. truth (brackets_balanced stk e)) exprs
                                  ++ levels visited ∷ []))))))
