-- ===== src/StackQueue/Stack.antt =====
-- The functions `stack_*`. The `struct Stack` is passed by value: a function that updates it returns
-- the new one.
pub mod Laws
pub mod Refine
mod Tests
use c_programming.Prelude.{ℕ, zero, suc, ◌+◌, ◌-◌, Bool, ◌==◌, if◌then◌else◌, List, [], ◌∷◌, not}
use c_programming.Prelude.Int.{ℤ}
use c_programming.Nodes.{
  Ptr, null, Cmd, pure, exit, ok, out_of_fuel, ◌>>=◌, ◌>>◌, load, set_next, free, node_create,
  increment,
}

pub record Stack : Type 0 where
  pub top : Ptr
  pub size : ℕ

abbrev pub stack : Ptr → ℕ → Stack
stack p n = record { top = p; size = n }

-- `calloc` answers `fresh` for the structure itself.
unfoldable pub create : Ptr → Cmd Stack
create fresh = if fresh == null then exit else pure (stack null 0)

abbrev pub is_empty : Stack → Bool
is_empty s = s.size == 0

unfoldable pub push : Ptr → Stack → ℤ → Cmd Stack
push fresh s value = do
  n ← node_create fresh value
  set_next n s.top
  size ← increment s.size
  pure (stack n size)

unfoldable pub pop : Stack → Cmd (ℤ × Stack)
pop s =
    if is_empty s
    then exit
    else do old ← load s.top; free s.top; pure (old.value, stack old.next (s.size - 1))

unfoldable pub peek : Stack → Cmd ℤ
peek s = if is_empty s then exit else do n ← load s.top; pure n.value

-- `while (!stack_is_empty(s)) stack_pop(s);`
unfoldable pub drain : ℕ → Stack → Cmd (Unit {0})
drain zero s = λ _. out_of_fuel
drain (suc k) s = if is_empty s then pure tt else do (_, s') ← pop s; drain k s'

-- `stack_free`: after the loop the structure no longer exists.
unfoldable pub destroy : Stack → Cmd (Unit {0})
destroy s = drain (s.size + 1) s

-- The values that `stack_print` prints, from the top.
unfoldable pub print_loop : ℕ → Ptr → Cmd (List ℤ)
print_loop zero cur = λ _. out_of_fuel
print_loop (suc k) cur =
    if cur == null
    then pure []
    else do n ← load cur; rest ← print_loop k n.next; pure (n.value ∷ rest)

-- They, and the size.
unfoldable pub print : Stack → Cmd (List ℤ × ℕ)
print s = do vs ← print_loop (s.size + 1) s.top; pure (vs, s.size)
