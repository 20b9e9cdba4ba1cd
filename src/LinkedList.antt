-- ===== src/LinkedList.antt =====
-- The functions of exercises/10_linked_lists/linked_lists.c, over the heap of `Nodes`. The
-- `struct List` is passed by value: a function that updates it returns the new one. Loops that run
-- along the whole list take `size + 1` rounds of fuel.
pub mod Spec
mod Walk
pub mod Insert
pub mod Remove
pub mod Query
pub mod Reverse
mod Main
mod Tests
use c_programming.Prelude.{
  ℕ, zero, suc, ◌+◌, ◌-◌, Bool, true, false, ◌||◌, ◌==◌, if◌then◌else◌, List, [], ◌∷◌, length, not,
}
use c_programming.Prelude.Int.{ℤ, pos, negsuc, ◌==ℤ◌, leb_ℤ, ltb_ℤ}
use c_programming.Nodes.{
  Ptr, null, Cmd, pure, exit, ok, out_of_fuel, ◌>>=◌, ◌>>◌, load, set_next, free, node_create,
  increment,
}

-- `List`
pub record IntList : Type 0 where
  pub head : Ptr
  pub size : ℕ

abbrev pub int_list : Ptr → ℕ → IntList
int_list p n = record { head = p; size = n }

-- `malloc` answers `fresh` for the structure itself.
pub create : Ptr → Cmd IntList
create fresh = if fresh == null then exit else pure (int_list null 0)

free_loop : ℕ → Ptr → Cmd (Unit {0})
free_loop zero cur = λ _. out_of_fuel
free_loop (suc k) cur =
    if cur == null then pure tt else do n ← load cur; free cur; free_loop k n.next

-- `list_free`: every node, then the structure, which no longer exists.
pub destroy : IntList → Cmd (Unit {0})
destroy l = free_loop (l.size + 1) l.head

pub push_front : Ptr → IntList → ℤ → Cmd IntList
push_front fresh l value = do
  n ← node_create fresh value
  set_next n l.head
  size ← increment l.size
  pure (int_list n size)

-- The walk `while (cur->next != NULL)`.
pub last_node : ℕ → Ptr → Cmd Ptr
last_node zero cur = λ _. out_of_fuel
last_node (suc k) cur = do n ← load cur; if n.next == null then pure cur else last_node k n.next

-- The node is created before the walk.
pub push_back : Ptr → IntList → ℤ → Cmd IntList
push_back fresh l value = do
  n ← node_create fresh value
  if l.head == null then (do size ← increment l.size; pure (int_list n size)) else do
    cur ← last_node (l.size + 1) l.head
    set_next cur n
    size ← increment l.size
    pure (int_list l.head size)

-- At most `k` steps along the list, stopping at its last node: the loop of `list_insert_at` and
-- `list_delete_at`, with `index - 1` for `k`.
pub advance : ℕ → Ptr → Cmd Ptr
advance zero cur = pure cur
advance (suc k) cur = do n ← load cur; if n.next == null then pure cur else advance k n.next

-- A positive index less one, which bounds the loops.
abbrev pub steps : ℤ → ℕ
steps (pos n) = n - 1
steps (negsuc n) = 0

pub insert_at : Ptr → IntList → ℤ → ℤ → Cmd IntList
insert_at fresh l index value =
    if leb_ℤ index (pos 0) || (l.head == null) then push_front fresh l value else do
      cur ← advance (steps index) l.head
      n ← node_create fresh value
      c ← load cur
      set_next n c.next
      set_next cur n
      size ← increment l.size
      pure (int_list l.head size)

pub pop_front : IntList → Cmd (ℤ × IntList)
pop_front l =
    if l.head == null
    then exit
    else do old ← load l.head; free l.head; pure (old.value, int_list old.next (l.size - 1))

-- `target = prev->next; prev->next = target->next; free(target); list->size--;`
unlink : IntList → Ptr → Ptr → Cmd IntList
unlink l prev target = do
  t ← load target
  set_next prev t.next
  free target
  pure (int_list l.head (l.size - 1))

-- The walk to the node before the first one that holds `value`.
pub before : ℕ → ℤ → Ptr → Cmd Ptr
before zero value prev = λ _. out_of_fuel
before (suc k) value prev = do
  n ← load prev
  if n.next == null
      then pure prev
      else do t ← load n.next; if t.value ==ℤ value then pure prev else before k value n.next

pub delete_value : IntList → ℤ → Cmd IntList
delete_value l value = if l.head == null then pure l else do
  h ← load l.head
  if h.value ==ℤ value then (do (_, l') ← pop_front l; pure l') else do
    prev ← before (l.size + 1) value l.head
    p ← load prev
    if p.next == null then pure l else unlink l prev p.next

pub delete_at : IntList → ℤ → Cmd IntList
delete_at l index =
    if (l.head == null) || ltb_ℤ index (pos 0)
    then pure l
    else if index ==ℤ pos 0
    then (do (_, l') ← pop_front l; pure l')
    else do
      prev ← advance (steps index) l.head
      p ← load prev
      if p.next == null then pure l else unlink l prev p.next

contains_loop : ℕ → ℤ → Ptr → Cmd Bool
contains_loop zero value cur = λ _. out_of_fuel
contains_loop (suc k) value cur =
    if cur == null
    then pure false
    else do n ← load cur; if n.value ==ℤ value then pure true else contains_loop k value n.next

pub contains : IntList → ℤ → Cmd Bool
contains l value = contains_loop (l.size + 1) value l.head

-- `for (i = 0; i < index && cur != NULL; i++)`, with `index - i` rounds left, and what follows.
get_loop : ℕ → Ptr → Cmd ℤ
get_loop zero cur = if cur == null then exit else do n ← load cur; pure n.value
get_loop (suc k) cur = if cur == null then exit else do n ← load cur; get_loop k n.next

-- A negative index makes no round.
abbrev pub rounds : ℤ → ℕ
rounds (pos n) = n
rounds (negsuc n) = 0

pub get : IntList → ℤ → Cmd ℤ
get l index = get_loop (rounds index) l.head

reverse_loop : ℕ → Ptr → Ptr → Cmd Ptr
reverse_loop zero prev cur = λ _. out_of_fuel
reverse_loop (suc k) prev cur =
    if cur == null then pure prev else do n ← load cur; set_next cur prev; reverse_loop k cur n.next

pub reverse : IntList → Cmd IntList
reverse l = do p ← reverse_loop (l.size + 1) null l.head; pure (int_list p l.size)

-- The output of `list_print`, one item for each conversion or separator.
pub data Printed : Type 0 where
  size_is : ℕ → Printed
  item : ℤ → Printed
  arrow : Printed
  close : Printed

print_loop : ℕ → Ptr → Cmd (List Printed)
print_loop zero cur = λ _. out_of_fuel
print_loop (suc k) cur = if cur == null then pure (close ∷ []) else do
  n ← load cur
  rest ← print_loop k n.next
  pure (item n.value ∷ (if not (n.next == null) then arrow ∷ rest else rest))

pub print : IntList → Cmd (List Printed)
print l = do rest ← print_loop (l.size + 1) l.head; pure (size_is l.size ∷ rest)
