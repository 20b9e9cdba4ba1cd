-- ===== src/Atomics/Treiber/Linear.antt =====
-- The lock-free stack of exercises/29_atomics/atomics.c is linearizable.
use c_programming.Prelude.{ℕ, ◌+◌, ◌≤◌, ◌<◌, ◌≡◌, Option, List, [], ◌∷◌, if◌then◌else◌, ◌==◌}
use c_programming.Interleave.{total, Each}
use c_programming.Atomics.Treiber.{
  Pc, pushing, push_loaded, push_linked, pop_loaded, pop_read, Event, quiet, push, pop, empty,
  System, times, Lifo, Chain,
}

-- 1 where the call has still to push the node.
abbrev owns : ℕ → Pc → ℕ
owns x (pushing n) = if n == x then 1 else 0
owns x (push_loaded n old) = if n == x then 1 else 0
owns x (push_linked n old) = if n == x then 1 else 0
owns x _ = 0

-- The nodes that have been pushed, also those popped again.
abbrev ever : List Event → List ℕ
ever [] = []
ever (push n ∷ log) = n ∷ ever log
ever (quiet ∷ log) = ever log
ever (pop n ∷ log) = ever log
ever (empty ∷ log) = ever log

-- What a call knows of the memory.
abbrev Knows : (ℕ → Option ℕ) → List ℕ → Pc → Type 0
Knows next old_nodes (push_linked n old) = next n ≡ old
Knows next old_nodes (pop_loaded o) = 0 < times o old_nodes
Knows next old_nodes (pop_read o new) = (0 < times o old_nodes) × (next o ≡ new)
Knows next old_nodes _ = Unit {0}

record IsLinear (s : System) (l : List ℕ) : Type 0 where
  lifo : Lifo s.log l
  chain : Chain s.mem.next s.mem.head l
  old : Each (λ n. 0 < times n (ever s.log)) l
  once : (x : ℕ) → total (owns x) s.pcs + times x (ever s.log) ≤ 1
  knows : Each (Knows s.mem.next (ever s.log)) s.pcs
