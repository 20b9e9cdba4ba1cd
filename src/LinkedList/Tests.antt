-- ===== src/LinkedList/Tests.antt =====
-- Runs of the linked list and its `main`, and the theorems at concrete lists.
use c_programming.Prelude.{ℕ, suc, ◌≡◌, refl, true, false, none, some, List, [], ◌∷◌, arith}
use c_programming.Prelude.Int.{ℤ, pos}
use c_programming.Nodes.{
  null, Heap, node, put, load, set_next, free, node_create, increment, IsFresh, Ends,
}
use c_programming.Nodes.Chain.{Cells}
use c_programming.LinkedList.{
  IntList, int_list, create, destroy, free_loop, push_front, push_back, last_node, insert_at,
  advance, pop_front, unlink, before, delete_value, delete_at, contains, contains_loop, get,
  get_loop, reverse, reverse_loop, print, print_loop, Printed, size_is, item, arrow, close,
}
use c_programming.LinkedList.Spec.{IsList, erase, SameOutside}
use c_programming.LinkedList.Remove.{Removed, delete_value-Removed}
use c_programming.LinkedList.Reverse.{reverse_lem}
use c_programming.LinkedList.Main.{Line, shown, number, truth, count, main}

program : Unit {0}
unfolding put load set_next free node_create increment create destroy free_loop push_front push_back
    last_node insert_at advance pop_front unlink before delete_value delete_at contains
    contains_loop get get_loop reverse reverse_loop print print_loop main
program = tt

abbrev items : ℤ → List ℤ → List Printed
items v [] = item v ∷ close ∷ []
items v (w ∷ ws) = item v ∷ arrow ∷ items w ws

abbrev three : ℤ → ℤ → ℤ → Line
three a b c = shown (size_is 3 ∷ items a (b ∷ c ∷ []))

abbrev line : ℕ → ℤ → List ℤ → Line
line n v vs = shown (size_is n ∷ items v vs)

main_output : Ends (main suc (λ _. none)) λ out h.
    (out
      ≡ line 3 (pos 10) (pos 20 ∷ pos 30 ∷ [])
        ∷ line 4 (pos 5) (pos 10 ∷ pos 20 ∷ pos 30 ∷ [])
        ∷ line 5 (pos 5) (pos 10 ∷ pos 15 ∷ pos 20 ∷ pos 30 ∷ [])
        ∷ line 6 (pos 1) (pos 5 ∷ pos 10 ∷ pos 15 ∷ pos 20 ∷ pos 30 ∷ [])
        ∷ number (pos 1)
        ∷ number (pos 15)
        ∷ truth true
        ∷ truth false
        ∷ count 6
        ∷ number (pos 1)
        ∷ line 5 (pos 5) (pos 10 ∷ pos 15 ∷ pos 20 ∷ pos 30 ∷ [])
        ∷ line 4 (pos 5) (pos 10 ∷ pos 20 ∷ pos 30 ∷ [])
        ∷ line 3 (pos 10) (pos 20 ∷ pos 30 ∷ [])
        ∷ line 2 (pos 10) (pos 20 ∷ [])
        ∷ line 2 (pos 10) (pos 20 ∷ [])
        ∷ line 4 (pos 10) (pos 20 ∷ pos 30 ∷ pos 40 ∷ [])
        ∷ line 3 (pos 10) (pos 30 ∷ pos 40 ∷ [])
        ∷ line 5 (pos 10) (pos 30 ∷ pos 40 ∷ pos 50 ∷ pos 60 ∷ [])
        ∷ line 5 (pos 60) (pos 50 ∷ pos 40 ∷ pos 30 ∷ pos 10 ∷ [])
        ∷ [])
    × (h 2 ≡ none)
    × (h 7 ≡ none)
    × (h 11 ≡ none)
unfolding program
main_output = (_, _, refl, (refl, refl, refl, refl))

-- The list 10, 20 at the addresses 1 and 2, and a further node at 9.
abbrev sample : Heap
sample =
    put (put (put (λ _. none) 1 (some (node (pos 10) 2))) 2 (some (node (pos 20) null))) 9
      (some (node (pos 7) null))

abbrev cells : Cells
cells = (1, pos 10) ∷ (2, pos 20) ∷ []

abbrev two : IntList
two = int_list 1 2

two-IsList : IsList sample two cells
unfolding put
two-IsList = record {
  head = refl;
  size = refl;
  chain = (omega arith, refl, refl, (omega arith, refl, refl, tt));
}

three-IsFresh : IsFresh sample 3
unfolding put
three-IsFresh = record { ne_null = omega arith; unused = refl }

delete_value-Removed_example :
    Ends (delete_value two (pos 20) sample) (Removed sample cells (erase (pos 20) cells))
delete_value-Removed_example = delete_value-Removed sample two cells (pos 20) two-IsList

reverse_lem_example :
    Ends
      (reverse two sample)
      (λ l g. IsList g l ((2, pos 20) ∷ (1, pos 10) ∷ []) × SameOutside cells sample g)
reverse_lem_example = reverse_lem sample two cells two-IsList
