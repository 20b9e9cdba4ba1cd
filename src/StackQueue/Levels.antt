-- ===== src/StackQueue/Levels.antt =====
-- `bfs_order` of exercises/16_stack_and_queue/stack_queue.c, on the queue of StackQueue/Queue.antt.
pub mod Rows
pub mod Waiting
pub mod Order
mod Tests
use c_programming.Prelude.{
  ℕ, zero, suc, ◌+◌, Bool, if◌then◌else◌, List, [], ◌∷◌, ◌==◌, ◌&&◌, not, Option, none, some,
}
use c_programming.Prelude.Int.{ℤ, pos, leb_ℤ}
use c_programming.Prelude.Ints.{add_int, mul_int}
use c_programming.Nodes.{Ptr, Cmd, pure, undefined, out_of_fuel, ◌>>=◌, ◌>>◌}
use c_programming.StackQueue.Queue
use c_programming.StackQueue.Queue.{Queue}

-- What is printed: the title of a level, or a node.
pub data Item : Type 0 where
  level : ℕ → Item
  number : ℤ → Item

-- The value of an expression on `int`; an overflow is undefined.
abbrev pub value_of : Option ℤ → Cmd ℤ
value_of none = λ _. undefined
value_of (some v) = pure v

-- `if (child <= n) queue_enqueue(q, child);`, with the number of the next request to `malloc`.
unfoldable pub enqueue_child : (ℕ → Ptr) → ℤ → Queue → ℕ → ℤ → Cmd (Queue × ℕ)
enqueue_child malloc n q asked child =
    if leb_ℤ child n
    then (do q' ← Queue.enqueue (malloc asked) q child; pure (q', asked + 1))
    else pure (q, asked)

-- The head of the queue, whose children go in.
unfoldable pub visit : (ℕ → Ptr) → ℤ → Queue → ℕ → Cmd (ℤ × Queue × ℕ)
visit malloc n q asked = do
  (node, q) ← Queue.dequeue q
  left ← value_of (mul_int (pos 2) node)
  twice ← value_of (mul_int (pos 2) node)
  right ← value_of (add_int twice (pos 1))
  (q, asked) ← enqueue_child malloc n q asked left
  (q, asked) ← enqueue_child malloc n q asked right
  pure (node, q, asked)

unfoldable pub bfs_loop : ℕ → (ℕ → Ptr) → ℤ → Queue → ℕ → ℕ → ℕ → ℕ → Cmd (Queue × List Item)
bfs_loop zero malloc n q asked depth in_level printed = λ _. out_of_fuel
bfs_loop (suc k) malloc n q asked depth in_level printed =
    if Queue.is_empty q then pure (q, []) else do
      (node, q, asked) ← visit malloc n q asked
      let ends = (printed + 1 == in_level) && not (Queue.is_empty q)
      (q, rest) ←
          bfs_loop k malloc n q asked (if ends then depth + 1 else depth)
            (if ends then q.size else in_level) (if ends then 0 else printed + 1)
      pure (q, number node ∷ (if ends then level (depth + 1) ∷ rest else rest))

-- `rounds` bounds the loop, which has one round for each node and one for the end.
unfoldable pub bfs_order : ℕ → (ℕ → Ptr) → ℤ → Cmd (List Item)
bfs_order rounds malloc n = do
  q ← Queue.create (malloc 0)
  q ← Queue.enqueue (malloc 1) q (pos 1)
  (q, out) ← bfs_loop rounds malloc n q 2 0 1 0
  Queue.destroy q
  pure (level 0 ∷ out)
