-- ===== src/Functions/Recursion.antt =====
-- For which numbers factorial and fibonacci of exercises/04_functions/functions.c return, and what.
use c_programming.Prelude.{
  ℕ, zero, suc, ◌+◌, ◌*◌, ◌≤◌, ◌<◌, ◌≡◌, refl, sym, Bool, true, false, arith, leb, ltb,
  if◌then◌else◌, Bool-cases, inl, inr, some, none, ◌==◌, not,
}
use c_programming.Prelude.Int.{ℤ, pos, negsuc}
use c_programming.Prelude.Ints.{sub_int, mul_int, add_int, mul_int_pos, add_int_pos, int_end}
use c_programming.Prelude.Ranges.{all_below, all_below_sound}
use c_programming.Functions.{
  Call, returns, undefined, runs_on, checked, then_call, call_at, factorial, fibonacci,
}

-- n!
abbrev pub fact : ℕ → ℕ
fact zero = 1
fact (suc n) = suc n * fact n

-- The Fibonacci numbers, `n` and the next.
pair : ℕ → ℕ × ℕ
pair zero = (0, 1)
pair (suc n) = let (a, b) = pair n in (b, a + b)

unfoldable pub fib : ℕ → ℕ
unfolding pair
fib n = (pair n).0

less_one : (n : ℕ) → suc n < int_end → sub_int (pos (suc n)) (pos 1) ≡ some (pos n)
unfolding sub_int
less_one n h = ground arith

less_two : (n : ℕ) → suc (suc n) < int_end → sub_int (pos (suc (suc n))) (pos 2) ≡ some (pos n)
unfolding sub_int
less_two n h = ground arith

factorial_step :
    (d n : ℕ)
    → suc n < int_end
    → factorial (suc d) (pos (suc n))
      ≡ then_call (factorial d (pos n)) (λ r. checked (mul_int (pos (suc n)) r))
unfolding factorial
factorial_step d n h = rw (less_one n h) (if_suc n _ _)
  where
    if_suc : (n : ℕ) (x y : Call) → (if suc n + 0 == 0 + 0 then x else y) ≡ y
    if_suc n x y = ground arith

agree : Bool → Bool → Bool
agree true b = b
agree false b = not b

eq_of_agree : (a b : Bool) → agree a b ≡ true → a ≡ b
unfolding agree
eq_of_agree true b e = sym e
eq_of_agree false true e = cc
eq_of_agree false false e = refl

-- Up to 13!, the factorials that an `int` holds are those up to 12!.
fact_table : all_below 13 (λ n. agree (ltb (suc n * fact n) int_end) (leb (suc n) 12)) ≡ true
unfolding all_below agree
fact_table = refl

fact_fits : (n : ℕ) → n ≤ 12 → ltb (suc n * fact n) int_end ≡ leb (suc n) 12
fact_fits n h = eq_of_agree (ltb (suc n * fact n) int_end) (leb (suc n) 12) (
    all_below_sound 13 (λ n. agree (ltb (suc n * fact n) int_end) (leb (suc n) 12)) n fact_table
      (omega arith))

-- The product of the last call, where the value before it is the factorial.
product :
    (n : ℕ)
    → n ≤ 12
    → checked (mul_int (pos (suc n)) (pos (fact n)))
      ≡ (if leb (suc n) 12 then returns (pos (fact (suc n))) else undefined)
product n h = rw (mul_int_pos (suc n) (fact n), fact_fits n h) (ground arith)

pub factorial-fact :
    (n depth : ℕ)
    → n < int_end
    → n < depth
    → factorial depth (pos n) ≡ (if leb n 12 then returns (pos (fact n)) else undefined)
factorial-fact n zero small h = absurd (omega arith)
factorial-fact zero (suc d) small h = unfold factorial in refl
factorial-fact (suc n) (suc d) small h =
    rw (factorial_step d n small, factorial-fact n d (omega arith) (omega arith))
      (elim (Bool-cases (leb n 12)) [
        | inl few ↦ rw few (product n (ground arith))
        | inr many ↦ let more : leb (suc n) 12 ≡ false = ground arith in rw (many, more) refl
      ])

-- ---- fibonacci
fibonacci_step :
    (d n : ℕ)
    → suc (suc n) < int_end
    → fibonacci (suc d) (pos (suc (suc n)))
      ≡ then_call
          (fibonacci d (pos (suc n)))
          (λ a. then_call (fibonacci d (pos n)) (λ b. checked (add_int a b)))
unfolding fibonacci
fibonacci_step d n h = rw (less_one (suc n) h, less_two n h) (if_suc n _ _ _)
  where
    if_suc :
        (n : ℕ) (x y z : Call)
        → (if suc (suc n) + 0 == 0 + 0 then x else if suc (suc n) + 0 == 1 + 0 then y else z) ≡ z
    if_suc n x y z = ground arith

fib_table :
    all_below 46 (λ n. agree (ltb (fib (suc n) + fib n) int_end) (leb (suc (suc n)) 46)) ≡ true
unfolding all_below agree fib
fib_table = refl

fib_fits : (n : ℕ) → n < 46 → ltb (fib (suc n) + fib n) int_end ≡ leb (suc (suc n)) 46
fib_fits n h = eq_of_agree (ltb (fib (suc n) + fib n) int_end) (leb (suc (suc n)) 46) (
    all_below_sound 46 (λ n. agree (ltb (fib (suc n) + fib n) int_end) (leb (suc (suc n)) 46)) n
      fib_table h)

fib_next : (n : ℕ) → fib (suc (suc n)) ≡ fib (suc n) + fib n
unfolding fib pair
fib_next n = omega arith

-- The sum of two calls that both return.
sum_of_two :
    (n : ℕ)
    → n < 46
    → checked (add_int (pos (fib (suc n))) (pos (fib n)))
      ≡ (if leb (suc (suc n)) 46 then returns (pos (fib (suc (suc n)))) else undefined)
sum_of_two n h = rw (add_int_pos (fib (suc n)) (fib n), fib_fits n h, fib_next n) (ground arith)

pub fibonacci-fib :
    (n depth : ℕ)
    → n < int_end
    → n < depth
    → fibonacci depth (pos n) ≡ (if leb n 46 then returns (pos (fib n)) else undefined)
fibonacci-fib n zero small h = absurd (omega arith)
fibonacci-fib zero (suc d) small h = unfold fibonacci fib in refl
fibonacci-fib (suc zero) (suc d) small h = unfold fibonacci fib in refl
fibonacci-fib (suc (suc n)) (suc d) small h =
    rw
      (
        fibonacci_step d n small,
        fibonacci-fib (suc n) d (omega arith) (omega arith),
        fibonacci-fib n d (omega arith) (omega arith),
      )
      (elim (Bool-cases (leb (suc n) 46)) [
        | inl few ↦
            let few' : leb n 46 ≡ true = ground arith in
            rw (few, few') (sum_of_two n (ground arith))
        | inr many ↦ let more : leb (suc (suc n)) 46 ≡ false = ground arith in rw (many, more) refl
      ])

abbrev pub has_returned : Call → Bool
has_returned (returns v) = true
has_returned undefined = false
has_returned runs_on = false

has_returned-then :
    (c : Call) (k : ℤ → Call) → has_returned c ≡ false → has_returned (then_call c k) ≡ false
has_returned-then (returns v) k e = absurd (cc)
has_returned-then undefined k e = refl
has_returned-then runs_on k e = refl

less_one_negative :
    (n : ℕ)
    → sub_int (negsuc n) (pos 1) ≡ (if ltb (suc n) int_end then some (negsuc (suc n)) else none)
unfolding sub_int
less_one_negative n = ground arith

below_zero :
    (n : ℕ) (f : ℤ → Call)
    → has_returned (f (negsuc (suc n))) ≡ false
    → has_returned (call_at (sub_int (negsuc n) (pos 1)) f) ≡ false
below_zero n f e =
    rw (less_one_negative n) (elim (Bool-cases (ltb (suc n) int_end)) [
      | inl small ↦ rw small e
      | inr large ↦ rw large refl
    ])

factorial_negative :
    (d n : ℕ)
    → factorial (suc d) (negsuc n)
      ≡ then_call
          (call_at (sub_int (negsuc n) (pos 1)) (factorial d))
          (λ r. checked (mul_int (negsuc n) r))
unfolding factorial
factorial_negative d n = not_zero n _ _
  where
    not_zero : (n : ℕ) (x y : Call) → (if 0 + 0 == 0 + suc n then x else y) ≡ y
    not_zero n x y = ground arith

negative-has_returned : (n depth : ℕ) → has_returned (factorial depth (negsuc n)) ≡ false
negative-has_returned n zero = unfold factorial in refl
negative-has_returned n (suc d) = rw (factorial_negative d n) (
    has_returned-then (call_at (sub_int (negsuc n) (pos 1)) (factorial d)) _
      (below_zero n (factorial d) (negative-has_returned (suc n) d)))

-- Both recursions end at a depth of calls above the argument. factorial returns n! for 0 up to 12 and
-- fibonacci the n-th Fibonacci number for 0 up to 46; above that an `int` overflows. For a negative
-- number factorial returns nothing, however deep the calls may go.
pub factorial-fibonacci :
    (n depth : ℕ)
    → n < int_end
    → n < depth
    → (factorial depth (pos n) ≡ (if leb n 12 then returns (pos (fact n)) else undefined))
      × (fibonacci depth (pos n) ≡ (if leb n 46 then returns (pos (fib n)) else undefined))
      × (has_returned (factorial depth (negsuc n)) ≡ false)
factorial-fibonacci n depth small h =
    (factorial-fact n depth small h, fibonacci-fib n depth small h, negative-has_returned n depth)
