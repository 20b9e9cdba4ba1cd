-- ===== src/Variadic/Join.antt =====
-- The two passes of `join` in exercises/22_variadic/variadic.c agree: the block has room for the result.
use c_programming.Prelude.{
  ℕ, suc, ◌+◌, ◌<◌, ◌≡◌, refl, sym, ap, ◌∙◌, Bool, true, false, none, some, List, [], ◌∷◌, ◌++◌,
  if◌then◌else◌, ltb, length, length-append, arith,
}
use mathlib.Core.List.{append_assoc, append-nil}
use c_programming.Prelude.Texts.{Text}
use c_programming.Variadic.{
  Arg, a_string, null, measure, copy, join, count_loop, count_args, print_loop, print_all,
}

-- The texts one after the other.
abbrev pub concat : List Text → Text
concat [] = []
concat (t ∷ ts) = t ++ concat ts

module _ {D : Type 0} where
  -- The arguments of a call, and what stands after them.
  abbrev pub strings : List Text → List (Arg D) → List (Arg D)
  strings [] rest = rest
  strings (t ∷ ts) rest = a_string t ∷ strings ts rest

  measure-strings :
      (ts : List Text) (rest : List (Arg D)) (total : ℕ)
      → measure (length ts) total (strings ts rest) ≡ some (total + length (concat ts))
  unfolding measure
  measure-strings [] rest total = ap some (sum total)
    where
      sum : (n : ℕ) → n ≡ n + 0
      sum n = omega arith
  measure-strings (t ∷ ts) rest total =
      measure-strings ts rest (total + length t)
      ∙ ap some (sum total (length t) (length (concat ts)))
      ∙ ap (λ k. some (total + k)) (sym (length-append t (concat ts)))
    where
      sum : (a b c : ℕ) → a + b + c ≡ a + (b + c)
      sum a b c = omega arith

  copy-strings :
      (size : ℕ) (ts : List Text) (rest : List (Arg D)) (out : Text)
      → length out + length (concat ts) < size
      → copy size (length ts) out (strings ts rest) ≡ some (out ++ concat ts)
  unfolding copy
  copy-strings size [] rest out h = ap some (sym (append-nil out))
  copy-strings size (t ∷ ts) rest out h =
      let room : ltb (length out + length t) size ≡ true =
        ground (arith, length-append t (concat ts)) in
      rw room (
        copy-strings size ts rest (out ++ t)
          (omega (arith, length-append out t, length-append t (concat ts)))
        ∙ ap some (append_assoc out t (concat ts)))

-- join of as many strings as it is told writes nothing outside the block that it has measured, and
-- returns them one after the other, or null where malloc answers null. Arguments after them are not
-- read.
pub join-concat :
    (D : Type 0) (malloc : Bool) (ts : List Text) (rest : List (Arg D))
    → join malloc (length ts) (strings ts rest) ≡ some (if malloc then some (concat ts) else none)
unfolding join
join-concat D false ts rest = rw (measure-strings ts rest 1) refl
join-concat D true ts rest = rw (measure-strings ts rest 1) (
    let positive : ltb 0 (1 + length (concat ts)) ≡ true = ground arith in
    rw (positive, copy-strings (1 + length (concat ts)) ts rest [] (omega arith)) refl)

-- With the strings before a null argument, count_args counts them and print_all prints each, in order.
pub count_args-print_all :
    (D : Type 0) (first : Text) (ts : List Text) (rest : List (Arg D))
    → (count_args (some first) (strings ts (null ∷ rest)) ≡ some (length (first ∷ ts)))
      × (print_all (some first) (strings ts (null ∷ rest)) ≡ some (first ∷ ts))
unfolding count_args print_all
count_args-print_all D first ts rest =
    (counted 1 ts ∙ ap some (suc_is (length ts)), rw (printed ts) refl)
  where
    counted :
        (n : ℕ) (ts : List Text) → count_loop n (strings ts (null ∷ rest)) ≡ some (length ts + n)
    counted n [] = ap some (zero_is n)
      where
        zero_is : (n : ℕ) → n ≡ 0 + n
        zero_is n = omega arith
    counted n (t ∷ ts) = counted (n + 1) ts ∙ ap some (shift (length ts) n)
      where
        shift : (k n : ℕ) → k + (n + 1) ≡ suc k + n
        shift k n = omega arith

    suc_is : (n : ℕ) → n + 1 ≡ suc n
    suc_is n = omega arith

    printed : (ts : List Text) → print_loop (strings ts (null ∷ rest)) ≡ some ts
    printed [] = refl
    printed (t ∷ ts) = rw (printed ts) refl
