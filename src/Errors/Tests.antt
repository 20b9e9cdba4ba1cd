-- ===== src/Errors/Tests.antt =====
-- Runs of the sections, and the theorems at concrete values.
use c_programming.Prelude.{◌≡◌, refl, none, some, [], ◌∷◌}
use c_programming.Prelude.Int.{pos}
use c_programming.Prelude.Texts.{bytes, str_eq}
use c_programming.Errors.{
  skip_spaces, read_digits, scan_number, strtol, to_int, parse_int, Percent, ErrCode, parse_percent,
  read_config_value, load_config, Risk, quotient, risky_divide, newton, risky_sqrt_approx,
}
use c_programming.Errors.Sections.{
  section_return_codes, start_server, caught, section_setjmp, section_setjmp_neg,
  section_custom_errors,
}

sections_output :
    (section_return_codes ≡ some (pos 42) ∷ none ∷ none ∷ none ∷ [])
    × (start_server ≡ some (pos 8080, pos 30))
    × (section_setjmp ≡ (pos 5 ∷ pos 12 ∷ [], some 1))
    × (section_setjmp_neg ≡ (pos 5 ∷ [], some 2))
    × (section_custom_errors
        ≡ Percent.ok (pos 75)
          ∷ Percent.ok (pos 0)
          ∷ Percent.ok (pos 100)
          ∷ Percent.failed ErrCode.err_range
          ∷ Percent.failed ErrCode.err_parse
          ∷ Percent.failed ErrCode.err_parse
          ∷ [])
unfolding section_return_codes start_server caught section_setjmp section_setjmp_neg
    section_custom_errors skip_spaces read_digits scan_number strtol to_int parse_int parse_percent
    read_config_value load_config quotient risky_divide newton risky_sqrt_approx str_eq
sections_output = (refl, refl, refl, refl, refl)

-- The root of 8 is printed as 3, and a number past the end of `int` is read as another number.
surprises :
    (risky_sqrt_approx (pos 8) ≡ Risk.printed (pos 3))
    × (risky_sqrt_approx (pos 2147483647) ≡ Risk.overflow)
    × (parse_int (some (bytes "4294967338")) ≡ some (pos 42))
unfolding newton risky_sqrt_approx skip_spaces read_digits scan_number strtol to_int parse_int
surprises = (refl, refl, refl)
