-- ===== src/StackQueue/Queue/Tests.antt =====
-- The theorems on the queue at a concrete queue.
use c_programming.Prelude.{refl, none, some, List, [], ◌∷◌, arith}
use c_programming.Prelude.Int.{pos}
use c_programming.Nodes.{null, Heap, node, put, load, set_next, free, node_create, increment}
use c_programming.Nodes.Chain.{Cells}
use c_programming.StackQueue.Calls.{Call, Supplied, Replies}
use c_programming.StackQueue.Queue.{Queue, queue, enqueue, dequeue, link}
use c_programming.StackQueue.Queue.Laws.{IsQueue}
use c_programming.StackQueue.Queue.Refine.{operations, run, fifo, run-fifo}

-- The queue 10, 20 at the addresses 1 and 2.
abbrev sample : Heap
sample = put (put (λ _. none) 1 (some (node (pos 10) 2))) 2 (some (node (pos 20) null))

abbrev cells : Cells
cells = (1, pos 10) ∷ (2, pos 20) ∷ []

abbrev two : Queue
two = queue 1 2 2

two-IsQueue : IsQueue sample two cells
unfolding put
two-IsQueue = record {
  head = refl;
  tail = refl;
  size = refl;
  chain = (omega arith, refl, refl, (omega arith, refl, refl, tt));
}

-- The address 1 is answered again after its node has been freed.
abbrev calls : List Call
calls =
    Call.add 3 (pos 30)
    ∷ Call.take
    ∷ Call.add 1 (pos 40)
    ∷ Call.take
    ∷ Call.peek
    ∷ Call.is_empty
    ∷ []

calls-Supplied : Supplied operations calls two sample
unfolding enqueue dequeue link put load set_next free node_create increment
calls-Supplied = (
  record { ne_null = omega arith; unused = refl },
  (record { ne_null = omega arith; unused = refl }, tt),
)

run-fifo_example : Replies (run calls two sample) (fifo (pos 10 ∷ pos 20 ∷ []) calls)
run-fifo_example = run-fifo calls sample two cells two-IsQueue calls-Supplied (omega arith)
