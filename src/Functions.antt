-- ===== src/Functions.antt =====
-- exercises/04_functions/functions.c: the functions on `int`, two of them recursive.
pub mod Recursion
mod Main
mod Tests
use c_programming.Prelude.{
  ℕ, zero, suc, ◌+◌, Bool, true, false, Option, none, some, List, [], ◌∷◌, if◌then◌else◌, ◌==◌,
}
use c_programming.Prelude.Int.{ℤ, pos, negsuc, ltb_ℤ, ◌==ℤ◌}
use c_programming.Prelude.Ints.{add_int, sub_int, mul_int, ◌>>=◌}

unfoldable pub add : ℤ → ℤ → Option ℤ
unfolding add_int
add a b = add_int a b

unfoldable pub max3 : ℤ → ℤ → ℤ → ℤ
max3 a b c = let m = if ltb_ℤ b a then a else b in if ltb_ℤ c m then m else c

-- The loop of `average` over the places that are left.
unfoldable pub sum_loop : List ℤ → ℤ → Option ℤ
unfolding add_int
sum_loop [] sum = some sum
sum_loop (v ∷ arr) sum = add_int sum v >>= λ sum'. sum_loop arr sum'

-- Of the quotient that is returned, the two numbers that are divided, as doubles.
unfoldable pub average : List ℤ → ℕ → Option (ℤ × ℕ)
unfolding sum_loop
average arr len = sum_loop arr (pos 0) >>= λ sum. some (sum, len)

-- The variables that pointers point to, by address.
abbrev pub Memory : Type 0
Memory = ℕ → ℤ

abbrev pub store : Memory → ℕ → ℤ → Memory
store m p v q = if q == p then v else m q

unfoldable pub swap : Memory → ℕ → ℕ → Memory
swap m a b = let temp = m a in let m' = store m a (m b) in store m' b temp

-- A call returns a value, overflows, or is still running at the depth of calls that is given.
pub data Call : Type 0 where
  returns : ℤ → Call
  undefined : Call
  runs_on : Call

abbrev pub checked : Option ℤ → Call
checked none = undefined
checked (some v) = returns v

abbrev pub then_call : Call → (ℤ → Call) → Call
then_call (returns v) k = k v
then_call undefined k = undefined
then_call runs_on k = runs_on

-- `f(n - 1)` for a number and its call.
abbrev pub call_at : Option ℤ → (ℤ → Call) → Call
call_at none f = undefined
call_at (some n) f = f n

unfoldable pub factorial : ℕ → ℤ → Call
unfolding sub_int mul_int
factorial zero n = runs_on
factorial (suc depth) n =
    let rest = call_at (sub_int n (pos 1)) (factorial depth) in
    if n ==ℤ pos 0 then returns (pos 1) else then_call rest (λ r. checked (mul_int n r))

unfoldable pub fibonacci : ℕ → ℤ → Call
unfolding sub_int add_int
fibonacci zero n = runs_on
fibonacci (suc depth) n =
    let one_less = call_at (sub_int n (pos 1)) (fibonacci depth) in
    let two_less = call_at (sub_int n (pos 2)) (fibonacci depth) in
    if n ==ℤ pos 0
    then returns (pos 0)
    else if n ==ℤ pos 1
    then returns (pos 1)
    else then_call one_less (λ a. then_call two_less (λ b. checked (add_int a b)))
