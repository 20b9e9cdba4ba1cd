-- ===== src/Enums/Main.antt =====
-- `main` of exercises/34_enums/enums.c.
use c_programming.Prelude.{ℕ, Bool, Option, List, [], ◌∷◌, map}
use c_programming.Prelude.Int.{pos}
use c_programming.Prelude.Texts.{Text, bytes}
use c_programming.Enums.{
  Colour, colour_list, colour_name, colour_hex, colour_from_name, Direction, dir_value,
  dir_opposite, direction_valid, Op, Double, apply, ConnState, ConnEvent, sm_step,
}
use c_programming.Enums.ConnState.{idle}
use c_programming.Enums.ConnEvent.{connect, open_up, send, close}

-- What is printed, without the titles and the names of directions, states and events.
pub data Line (D : Type 0) : Type 0 where
  colour_row : Text → ℕ → Line D
  lookup : Option Colour → Line D
  opposite : ℕ → ℕ → Line D
  is_valid : Bool → Line D
  result : D → Line D
  moved : Bool → ConnState → Line D

-- The loop over `sequence`: each call of `sm_step`, with the state after it.
unfoldable pub trace : {D : Type 0} → ConnState → List ConnEvent → List (Line D)
trace state [] = []
trace state (evt ∷ evts) =
    let (taken, next) = sm_step state evt in moved taken next ∷ trace next evts

abbrev pub directions : List Direction
directions = Direction.north ∷ Direction.south ∷ Direction.east ∷ Direction.west ∷ []

abbrev pub ops : List Op
ops = Op.op_add ∷ Op.op_sub ∷ Op.op_mul ∷ Op.op_div ∷ []

abbrev pub sequence : List ConnEvent
sequence = connect ∷ open_up ∷ send ∷ send ∷ close ∷ close ∷ []

-- `a` and `b` are the numbers 10.0 and 4.0.
unfoldable pub main : {D : Type 0} → Double D → D → D → List (List (Line D))
main d a b =
    map (λ c. colour_row (colour_name c) (colour_hex c)) colour_list
    ∷ (lookup (colour_from_name (bytes "blue")) ∷ lookup (colour_from_name (bytes "purple")) ∷ [])
    ∷ map (λ v. opposite (dir_value v) (dir_value (dir_opposite v))) directions
    ∷ (is_valid (direction_valid (pos 1)) ∷ is_valid (direction_valid (pos 9)) ∷ [])
    ∷ map (λ op. result (apply d op a b)) ops
    ∷ trace idle sequence
    ∷ trace idle (send ∷ [])
    ∷ []
