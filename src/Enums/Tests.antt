-- ===== src/Enums/Tests.antt =====
-- A run of `main`, with numbers in place of floating point, and the theorems at concrete inputs.
use c_programming.Prelude.{
  ℕ, ◌+◌, ◌-◌, ◌*◌, ◌/◌, ◌≤◌, ◌≡◌, refl, true, false, none, some, List, [], ◌∷◌, ◌==◌,
}
use c_programming.Prelude.Texts.{bytes, str_eq}
use c_programming.Enums.{
  Colour, colour_name, colour_hex, scan_names, colour_from_name, dir_value, dir_opposite, unsigned,
  direction_valid, Double, do_div, apply, ConnEvent, transitions, sm_step,
}
use c_programming.Enums.ConnState.{idle, connecting, connected, closing, closed}
use c_programming.Enums.ConnEvent.{connect, open_up, send, close, error}
use c_programming.Enums.Machine.{stage, progresses, run_events, stage-run_events}
use c_programming.Enums.Main.{colour_row, lookup, opposite, is_valid, result, moved, trace, main}

abbrev numbers : Double ℕ
numbers = record {
  add = λ a b. a + b;
  sub = λ a b. a - b;
  mul = λ a b. a * b;
  div = λ a b. a / b;
  is_zero = λ b. b == 0;
  zero_value = 0;
}

main_output :
    main numbers 10 4
    ≡ (colour_row (bytes "red") 16711680
        ∷ colour_row (bytes "green") 65280
        ∷ colour_row (bytes "blue") 255
        ∷ colour_row (bytes "white") 16777215
        ∷ colour_row (bytes "black") 0
        ∷ [])
      ∷ (lookup (some Colour.blue) ∷ lookup none ∷ [])
      ∷ (opposite 0 1 ∷ opposite 1 0 ∷ opposite 2 3 ∷ opposite 3 2 ∷ [])
      ∷ (is_valid true ∷ is_valid false ∷ [])
      ∷ (result 14 ∷ result 6 ∷ result 40 ∷ result 2 ∷ [])
      ∷ (moved true connecting
          ∷ moved true connected
          ∷ moved true connected
          ∷ moved true connected
          ∷ moved true closing
          ∷ moved true closed
          ∷ [])
      ∷ (moved false idle ∷ [])
      ∷ []
unfolding main trace colour_name colour_hex scan_names colour_from_name str_eq dir_value
    dir_opposite unsigned direction_valid do_div apply transitions sm_step
main_output = refl

abbrev events : List ConnEvent
events = connect ∷ connect ∷ open_up ∷ send ∷ send ∷ error ∷ close ∷ []

stage-run_events_example :
    (stage idle + progresses idle events ≤ stage (run_events idle events))
    × (progresses idle events ≤ 4)
stage-run_events_example = stage-run_events idle events
