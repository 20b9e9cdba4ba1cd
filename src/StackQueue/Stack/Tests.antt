-- ===== src/StackQueue/Stack/Tests.antt =====
-- The theorems on the stack at a concrete stack.
use c_programming.Prelude.{refl, none, some, List, [], ◌∷◌, arith}
use c_programming.Prelude.Int.{pos}
use c_programming.Nodes.{null, Heap, node, put, load, set_next, free, node_create, increment}
use c_programming.Nodes.Chain.{Cells}
use c_programming.StackQueue.Calls.{Call, Supplied, Replies}
use c_programming.StackQueue.Stack.{Stack, stack, push, pop}
use c_programming.StackQueue.Stack.Laws.{IsStack}
use c_programming.StackQueue.Stack.Refine.{operations, run, lifo, run-lifo}

-- The stack with 20 on top of 10, at the addresses 1 and 2.
abbrev sample : Heap
sample = put (put (λ _. none) 1 (some (node (pos 20) 2))) 2 (some (node (pos 10) null))

abbrev cells : Cells
cells = (1, pos 20) ∷ (2, pos 10) ∷ []

abbrev two : Stack
two = stack 1 2

two-IsStack : IsStack sample two cells
unfolding put
two-IsStack = record {
  top = refl;
  size = refl;
  chain = (omega arith, refl, refl, (omega arith, refl, refl, tt));
}

-- The address 3 is answered again after its node has been freed.
abbrev calls : List Call
calls = Call.add 3 (pos 30) ∷ Call.take ∷ Call.add 3 (pos 40) ∷ Call.peek ∷ Call.is_empty ∷ []

calls-Supplied : Supplied operations calls two sample
unfolding push pop put load set_next free node_create increment
calls-Supplied = (
  record { ne_null = omega arith; unused = refl },
  (record { ne_null = omega arith; unused = refl }, tt),
)

run-lifo_example : Replies (run calls two sample) (lifo (pos 20 ∷ pos 10 ∷ []) calls)
run-lifo_example = run-lifo calls sample two cells two-IsStack calls-Supplied (omega arith)
