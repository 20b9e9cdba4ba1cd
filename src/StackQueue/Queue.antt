-- ===== src/StackQueue/Queue.antt =====
-- The functions `queue_*`. The `struct Queue` is passed by value: a function that updates it returns
-- the new one.
pub mod Laws
pub mod Refine
mod Tests
use c_programming.Prelude.{ℕ, zero, suc, ◌+◌, ◌-◌, Bool, ◌==◌, if◌then◌else◌, List, [], ◌∷◌, not}
use c_programming.Prelude.Int.{ℤ}
use c_programming.Nodes.{
  Ptr, null, Cmd, pure, exit, ok, out_of_fuel, ◌>>=◌, ◌>>◌, load, set_next, free, node_create,
  increment,
}

pub record Queue : Type 0 where
  pub head : Ptr
  pub tail : Ptr
  pub size : ℕ

abbrev pub queue : Ptr → Ptr → ℕ → Queue
queue p t n = record { head = p; tail = t; size = n }

-- `calloc` answers `fresh` for the structure itself.
unfoldable pub create : Ptr → Cmd Queue
create fresh = if fresh == null then exit else pure (queue null null 0)

abbrev pub is_empty : Queue → Bool
is_empty q = q.size == 0

-- The link of the old tail, or the head where there is none; the new head is returned.
unfoldable pub link : Queue → Ptr → Cmd Ptr
link q n = if q.tail == null then pure n else (set_next q.tail n >> pure q.head)

unfoldable pub enqueue : Ptr → Queue → ℤ → Cmd Queue
enqueue fresh q value = do
  n ← node_create fresh value
  head ← link q n
  size ← increment q.size
  pure (queue head n size)

unfoldable pub dequeue : Queue → Cmd (ℤ × Queue)
dequeue q = if is_empty q then exit else do
  old ← load q.head
  free q.head
  pure (old.value, queue old.next (if old.next == null then null else q.tail) (q.size - 1))

unfoldable pub peek : Queue → Cmd ℤ
peek q = if is_empty q then exit else do n ← load q.head; pure n.value

-- `while (!queue_is_empty(q)) queue_dequeue(q);`
unfoldable pub drain : ℕ → Queue → Cmd (Unit {0})
drain zero q = λ _. out_of_fuel
drain (suc k) q = if is_empty q then pure tt else do (_, q') ← dequeue q; drain k q'

-- `queue_free`: after the loop the structure no longer exists.
unfoldable pub destroy : Queue → Cmd (Unit {0})
destroy q = drain (q.size + 1) q

-- The values that `queue_print` prints, from the head.
unfoldable pub print_loop : ℕ → Ptr → Cmd (List ℤ)
print_loop zero cur = λ _. out_of_fuel
print_loop (suc k) cur =
    if cur == null
    then pure []
    else do n ← load cur; rest ← print_loop k n.next; pure (n.value ∷ rest)

-- They, and the size.
unfoldable pub print : Queue → Cmd (List ℤ × ℕ)
print q = do vs ← print_loop (q.size + 1) q.head; pure (vs, q.size)
