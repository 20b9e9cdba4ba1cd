-- ===== src/Errors/Sections.antt =====
-- The sections of `main` of exercises/20_error_handling/error_handling.c that parse, propagate, jump
-- and answer codes; what they print, without the titles.
use c_programming.Prelude.{ℕ, true, Option, none, some, List, [], ◌∷◌, map}
use c_programming.Prelude.Int.{ℤ, pos, negsuc}
use c_programming.Prelude.Texts.{bytes}
use c_programming.Errors.{
  parse_int, parse_percent, Percent, load_config, Risk, printed, jumped, overflow, risky_divide,
  risky_sqrt_approx,
}

unfoldable pub section_return_codes : List (Option ℤ)
section_return_codes =
    map (λ s. parse_int (some s)) (bytes "42" ∷ bytes "abc" ∷ [] ∷ bytes "3x7" ∷ [])

-- `none`: the server fails.
unfoldable pub start_server : Option (ℤ × ℤ)
start_server = load_config

-- The calls after `setjmp`, up to the first one that jumps, with the code that is caught; `none`:
-- the end is reached, or a call is undefined.
unfoldable pub caught : List Risk → List ℤ × Option ℕ
caught [] = ([], none)
caught (printed v ∷ calls) = let (out, code) = caught calls in (v ∷ out, code)
caught (jumped code ∷ calls) = ([], some code)
caught (overflow ∷ calls) = ([], none)

unfoldable pub section_setjmp : List ℤ × Option ℕ
section_setjmp = caught (
    risky_divide (pos 10) (pos 2) ∷ risky_sqrt_approx (pos 144) ∷ risky_divide (pos 7) (pos 0) ∷ [])

unfoldable pub section_setjmp_neg : List ℤ × Option ℕ
section_setjmp_neg = caught (risky_sqrt_approx (pos 25) ∷ risky_sqrt_approx (negsuc 3) ∷ [])

unfoldable pub section_custom_errors : List Percent
section_custom_errors =
    map (λ s. parse_percent (some s) true)
      (bytes "75%" ∷ bytes "0%" ∷ bytes "100%" ∷ bytes "101%" ∷ bytes "abc" ∷ bytes "50" ∷ [])
