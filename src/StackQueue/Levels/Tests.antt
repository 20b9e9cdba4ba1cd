-- ===== src/StackQueue/Levels/Tests.antt =====
-- A run of bfs_order on seven nodes, and its theorem there.
use c_programming.Prelude.{ℕ, if◌then◌else◌, ◌==◌, ◌≡◌, refl, none, List, [], ◌∷◌, arith}
use c_programming.Prelude.Int.{pos, negsuc}
use c_programming.Prelude.Ints.{add_int, mul_int}
use c_programming.Nodes.{Heap, Ptr, Ends, put, load, set_next, free, node_create, increment}
use c_programming.StackQueue.Queue
use c_programming.StackQueue.Levels.{Item, level, number, enqueue_child, visit, bfs_loop, bfs_order}
use c_programming.StackQueue.Levels.Waiting.{Supply}
use c_programming.StackQueue.Levels.Rows.{rows}
use c_programming.StackQueue.Levels.Order.{bfs_order-rows}

abbrev clean : Heap
clean _ = none

-- The left child gets the cell of its parent, which has just been freed.
abbrev reusing : ℕ → Ptr
reusing i =
    if i == 0 then 9 else if i == 2 then 1 else if i == 4 then 1 else if i == 6 then 3 else i

clean-Supply : Supply clean reusing 7
clean-Supply = record {
  fresh = λ i inside. record { ne_null = ground arith; unused = refl };
  in_use = λ i j inside after before. ground arith;
}

abbrev shown : List Item
shown =
    level 0
    ∷ number (pos 1)
    ∷ level 1
    ∷ number (pos 2)
    ∷ number (pos 3)
    ∷ level 2
    ∷ number (pos 4)
    ∷ number (pos 5)
    ∷ number (pos 6)
    ∷ number (pos 7)
    ∷ []

seven_nodes : Ends (bfs_order 8 reusing (pos 7) clean) (λ out g. out ≡ shown)
unfolding bfs_order bfs_loop visit enqueue_child add_int mul_int put load set_next free node_create
    increment Queue.create Queue.enqueue Queue.dequeue Queue.link Queue.drain Queue.destroy
seven_nodes = (shown, _, refl, refl)

bfs_order-rows_example :
    Ends
      (bfs_order 8 reusing (pos 7) clean)
      (λ out g. (out ≡ rows 7 7 1 0) × ((a : Ptr) → g a ≡ clean a))
bfs_order-rows_example = bfs_order-rows clean reusing (pos 7) clean-Supply (omega arith)

seven_rows : rows 7 7 1 0 ≡ shown
seven_rows = refl

-- The root is printed even in a tree of no nodes.
negative_nodes :
    Ends (bfs_order 2 reusing (negsuc 0) clean) (λ out g. out ≡ level 0 ∷ number (pos 1) ∷ [])
unfolding bfs_order bfs_loop visit enqueue_child add_int mul_int put load set_next free node_create
    increment Queue.create Queue.enqueue Queue.dequeue Queue.link Queue.drain Queue.destroy
negative_nodes = (level 0 ∷ number (pos 1) ∷ [], _, refl, refl)
