-- ===== src/StackQueue/Calls.antt =====
-- Sequences of calls on a container, and the replies of a list of values that the stack and the
-- queue are held to. A call that adds a value carries the answer of `malloc`.
use c_programming.Prelude.{◌≡◌, Bool, true, false, Option, none, some, List, [], ◌∷◌, ap}
use c_programming.Prelude.Int.{ℤ}
use c_programming.Nodes.{
  Ptr, Heap, Run, Cmd, ok, exited, undefined, out_of_fuel, Ends, IsFresh, pure, then_run,
}

pub data Call : Type 0 where
  add : Ptr → ℤ → Call
  take : Call
  peek : Call
  is_empty : Call

pub data Reply : Type 0 where
  value : ℤ → Reply
  truth : Bool → Reply

-- The functions of a container `S` that change it.
pub record Operations (S : Type 0) : Type 0 where
  pub insert : Ptr → S → ℤ → Cmd S
  pub remove : S → Cmd (ℤ × S)

-- `P` holds of what the run leaves, if it ends in a result.
abbrev pub After : {A : Type 0} → Run A → (A → Heap → Type 0) → Type 0
After (ok a h) P = P a h
After exited P = Unit {0}
After undefined P = Unit {0}
After out_of_fuel P = Unit {0}

-- Each answer of `malloc` is not null and unused in the heap in which it is asked for. The address of a
-- node that has been freed may be answered again.
abbrev pub Supplied : {S : Type 0} → Operations S → List Call → S → Heap → Type 0
Supplied o [] s h = Unit {0}
Supplied o (add p v ∷ cs) s h = IsFresh h p × After (o.insert p s v h) (λ s' g. Supplied o cs s' g)
Supplied o (take ∷ cs) s h = After (o.remove s h) (λ (v, s') g. Supplied o cs s' g)
Supplied o (peek ∷ cs) s h = Supplied o cs s h
Supplied o (is_empty ∷ cs) s h = Supplied o cs s h

abbrev pub reply_then : Reply → Option (List Reply) → Option (List Reply)
reply_then r none = none
reply_then r (some rs) = some (r ∷ rs)

-- The replies of a list of values, the next one to take first; `insert` says where a new value
-- goes. `none`: the program ends.
unfoldable pub answers : (ℤ → List ℤ → List ℤ) → List ℤ → List Call → Option (List Reply)
answers insert vs [] = some []
answers insert vs (add p v ∷ cs) = answers insert (insert v vs) cs
answers insert [] (take ∷ cs) = none
answers insert (v ∷ vs) (take ∷ cs) = reply_then (value v) (answers insert vs cs)
answers insert [] (peek ∷ cs) = none
answers insert (v ∷ vs) (peek ∷ cs) = reply_then (value v) (answers insert (v ∷ vs) cs)
answers insert [] (is_empty ∷ cs) = reply_then (truth true) (answers insert [] cs)
answers insert (v ∷ vs) (is_empty ∷ cs) = reply_then (truth false) (answers insert (v ∷ vs) cs)

-- The run gives these replies without error, or ends the program where there are none.
abbrev pub Replies : Run (List Reply) → Option (List Reply) → Type 0
Replies r none = r ≡ exited
Replies r (some rs) = Ends r (λ out g. out ≡ rs)

pub Replies-then :
    (a : Reply) (r : Run (List Reply)) (o : Option (List Reply))
    → Replies r o
    → Replies (then_run r (λ rest. pure (a ∷ rest))) (reply_then a o)
Replies-then a r none e = rw e
Replies-then a r (some rs) (out, g, run, same) = (a ∷ out, g, rw run, ap (λ l. a ∷ l) same)
