-- ===== src/StackQueue/Tests.antt =====
-- A run of `main`.
use c_programming.Prelude.{ℕ, suc, ◌+◌, ◌≡◌, refl, true, false, none, List, [], ◌∷◌}
use c_programming.Prelude.Int.{pos}
use c_programming.Nodes.{put, load, set_next, free, node_create, increment, Ends}
use c_programming.StackQueue.Stack
use c_programming.StackQueue.Queue
use c_programming.StackQueue.Brackets.{scan, write, brackets_balanced}
use c_programming.Prelude.Ints.{add_int, mul_int}
use c_programming.StackQueue.Levels.{Item, level, enqueue_child, visit, bfs_loop, bfs_order}
use c_programming.StackQueue.Main.{
  Line, truth, number, shown, levels, push_tens, pop_all, enqueue_tens, dequeue_all, main,
}

abbrev tens : ℕ → List Line
tens n = number (pos n) ∷ []

main_output : Ends (main suc (λ n. n + 20) (λ n. n + 40) (λ _. 0) (λ _. none)) λ out h.
    (out
      ≡ truth true
        ∷ shown (pos 10 ∷ [], 1)
        ∷ shown (pos 20 ∷ pos 10 ∷ [], 2)
        ∷ shown (pos 30 ∷ pos 20 ∷ pos 10 ∷ [], 3)
        ∷ shown (pos 40 ∷ pos 30 ∷ pos 20 ∷ pos 10 ∷ [], 4)
        ∷ shown (pos 50 ∷ pos 40 ∷ pos 30 ∷ pos 20 ∷ pos 10 ∷ [], 5)
        ∷ number (pos 50)
        ∷ number (pos 50)
        ∷ shown (pos 40 ∷ pos 30 ∷ pos 20 ∷ pos 10 ∷ [], 4)
        ∷ number (pos 40)
        ∷ shown (pos 30 ∷ pos 20 ∷ pos 10 ∷ [], 3)
        ∷ number (pos 30)
        ∷ shown (pos 20 ∷ pos 10 ∷ [], 2)
        ∷ number (pos 20)
        ∷ shown (pos 10 ∷ [], 1)
        ∷ number (pos 10)
        ∷ shown ([], 0)
        ∷ truth true
        ∷ truth true
        ∷ shown (pos 10 ∷ [], 1)
        ∷ shown (pos 10 ∷ pos 20 ∷ [], 2)
        ∷ shown (pos 10 ∷ pos 20 ∷ pos 30 ∷ [], 3)
        ∷ shown (pos 10 ∷ pos 20 ∷ pos 30 ∷ pos 40 ∷ [], 4)
        ∷ shown (pos 10 ∷ pos 20 ∷ pos 30 ∷ pos 40 ∷ pos 50 ∷ [], 5)
        ∷ number (pos 10)
        ∷ number (pos 10)
        ∷ shown (pos 20 ∷ pos 30 ∷ pos 40 ∷ pos 50 ∷ [], 4)
        ∷ number (pos 20)
        ∷ shown (pos 30 ∷ pos 40 ∷ pos 50 ∷ [], 3)
        ∷ number (pos 30)
        ∷ shown (pos 40 ∷ pos 50 ∷ [], 2)
        ∷ number (pos 40)
        ∷ shown (pos 50 ∷ [], 1)
        ∷ number (pos 50)
        ∷ shown ([], 0)
        ∷ truth true
        ∷ truth true
        ∷ truth true
        ∷ truth false
        ∷ truth false
        ∷ truth true
        ∷ truth true
        ∷ levels (
            level 0
            ∷ Item.number (pos 1)
            ∷ level 1
            ∷ Item.number (pos 2)
            ∷ Item.number (pos 3)
            ∷ level 2
            ∷ Item.number (pos 4)
            ∷ Item.number (pos 5)
            ∷ Item.number (pos 6)
            ∷ Item.number (pos 7)
            ∷ [])
        ∷ [])
    × (h 3 ≡ none)
    × (h 25 ≡ none)
unfolding main push_tens pop_all enqueue_tens dequeue_all put load set_next free node_create
    increment Stack.create Stack.push Stack.pop Stack.peek Stack.drain Stack.destroy
    Stack.print_loop Stack.print Queue.create Queue.link Queue.enqueue Queue.dequeue Queue.peek
    Queue.drain Queue.destroy Queue.print_loop Queue.print brackets_balanced scan write bfs_order
    bfs_loop visit enqueue_child add_int mul_int
main_output = (_, _, refl, (refl, refl, refl))
