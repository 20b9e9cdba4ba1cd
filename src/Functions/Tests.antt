-- ===== src/Functions/Tests.antt =====
-- The theorem on the recursions at ten.
use c_programming.Prelude.{◌≡◌, false, arith, if◌then◌else◌, leb}
use c_programming.Prelude.Int.{pos, negsuc}
use c_programming.Functions.{returns, undefined, factorial, fibonacci}
use c_programming.Functions.Recursion.{fact, fib, has_returned, factorial-fibonacci}

factorial-fibonacci_example :
    (factorial 11 (pos 10) ≡ (if leb 10 12 then returns (pos (fact 10)) else undefined))
    × (fibonacci 11 (pos 10) ≡ (if leb 10 46 then returns (pos (fib 10)) else undefined))
    × (has_returned (factorial 11 (negsuc 10)) ≡ false)
factorial-fibonacci_example = factorial-fibonacci 10 11 (omega arith) (omega arith)
