-- ===== src/Enums.antt =====
-- exercises/34_enums/enums.c: the tables and the lookup of the colours, the directions, the dispatch
-- table, and the state machine of a connection.
pub mod Tables
pub mod Machine
mod Main
mod Tests
use c_programming.Prelude.{
  ℕ, ◌+◌, ◌-◌, Bool, true, false, Option, none, some, List, [], ◌∷◌, if◌then◌else◌, ltb,
}
use c_programming.Prelude.Int.{ℤ, pos, negsuc}
use c_programming.Prelude.Texts.{Text, bytes, str_eq}

pub data Colour : Type 0 where
  red : Colour
  green : Colour
  blue : Colour
  white : Colour
  black : Colour

-- `COLOUR_LIST`: the order of the enum; `COLOUR_COUNT` is not among them.
abbrev pub colour_list : List Colour
colour_list = red ∷ green ∷ blue ∷ white ∷ black ∷ []

unfoldable pub colour_name : Colour → Text
colour_name red = bytes "red"
colour_name green = bytes "green"
colour_name blue = bytes "blue"
colour_name white = bytes "white"
colour_name black = bytes "black"

unfoldable pub colour_hex : Colour → ℕ
colour_hex red = 16711680
colour_hex green = 65280
colour_hex blue = 255
colour_hex white = 16777215
colour_hex black = 0

-- The loop of `colour_from_name`, with the colours that are left.
unfoldable pub scan_names : List Colour → Text → Option Colour
scan_names [] s = none
scan_names (c ∷ cs) s = if str_eq (colour_name c) s then some c else scan_names cs s

-- `none` is `COLOUR_COUNT`.
unfoldable pub colour_from_name : Text → Option Colour
colour_from_name s = scan_names colour_list s

pub data Direction : Type 0 where
  north : Direction
  south : Direction
  east : Direction
  west : Direction

abbrev pub direction_count : ℕ
direction_count = 4

unfoldable pub dir_opposite : Direction → Direction
dir_opposite north = south
dir_opposite south = north
dir_opposite east = west
dir_opposite west = east

-- The value of the enum, and the direction at a value.
unfoldable pub dir_value : Direction → ℕ
dir_value north = 0
dir_value south = 1
dir_value east = 2
dir_value west = 3

-- `(unsigned)d` on 32 bits, for an `int` that is in its range.
unfoldable pub unsigned : ℤ → ℕ
unsigned (pos n) = n
unsigned (negsuc n) = 4294967296 - (n + 1)

unfoldable pub direction_valid : ℤ → Bool
direction_valid d = ltb (unsigned d) direction_count

pub data Op : Type 0 where
  op_add : Op
  op_sub : Op
  op_mul : Op
  op_div : Op

-- The arithmetic on `double` that the functions of the table use, and the test `b != 0.0`.
pub record Double (D : Type 0) : Type 0 where
  pub add : D → D → D
  pub sub : D → D → D
  pub mul : D → D → D
  pub div : D → D → D
  pub is_zero : D → Bool
  pub zero_value : D

module _ {D : Type 0} (d : Double D) where
  unfoldable pub do_div : D → D → D
  do_div a b = if d.is_zero b then d.zero_value else d.div a b

  -- `op_fn[op](a, b)`; the assertion before it holds of every constructor.
  unfoldable pub apply : Op → D → D → D
  unfolding do_div
  apply op_add a b = d.add a b
  apply op_sub a b = d.sub a b
  apply op_mul a b = d.mul a b
  apply op_div a b = do_div a b

pub data ConnState : Type 0 where
  idle : ConnState
  connecting : ConnState
  connected : ConnState
  closing : ConnState
  closed : ConnState

pub data ConnEvent : Type 0 where
  connect : ConnEvent
  open_up : ConnEvent
  send : ConnEvent
  close : ConnEvent
  error : ConnEvent

-- The table; `none` is `NO_TRANS`.
unfoldable pub transitions : ConnState → ConnEvent → Option ConnState
transitions idle connect = some connecting
transitions idle error = some closed
transitions idle open_up = none
transitions idle send = none
transitions idle close = none
transitions connecting open_up = some connected
transitions connecting error = some closed
transitions connecting connect = none
transitions connecting send = none
transitions connecting close = none
transitions connected send = some connected
transitions connected close = some closing
transitions connected error = some closed
transitions connected connect = none
transitions connected open_up = none
transitions closing close = some closed
transitions closing error = some closed
transitions closing connect = none
transitions closing open_up = none
transitions closing send = none
transitions closed connect = none
transitions closed open_up = none
transitions closed send = none
transitions closed close = none
transitions closed error = none

-- What is returned, and the new state.
unfoldable pub sm_step : ConnState → ConnEvent → Bool × ConnState
sm_step state evt = elim (transitions state evt) [
  | none ↦ (false, state)
  | some next ↦ (true, next)
]
