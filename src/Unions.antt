-- ===== src/Unions.antt =====
-- exercises/12_enums_and_unions/enums_unions.c: enums with values, sets of flags, and tagged unions. An
-- enum is the number that C gives it, since a variable of its type may hold another.
mod Main
use Prim.Native.Nat.{bit_and}
use c_programming.Prelude.{
  ℕ, zero, suc, ◌+◌, ◌/◌, ◌%◌, ◌^◌, Bool, true, false, Option, none, some, List, [], ◌∷◌,
  if◌then◌else◌, leb, ◌==◌, take, not,
}
use c_programming.Prelude.Int.{ℤ, pos, ◌==ℤ◌}
use c_programming.Prelude.Texts.{Text, bytes}
use c_programming.MultiFile.{Double}

abbrev pub sun : ℕ
sun = 6

abbrev names : List Text
names =
    bytes "Mon"
    ∷ bytes "Tue"
    ∷ bytes "Wed"
    ∷ bytes "Thu"
    ∷ bytes "Fri"
    ∷ bytes "Sat"
    ∷ bytes "Sun"
    ∷ []

-- The name at an index of the table; `"?"` outside it.
abbrev entry : List Text → ℕ → Text
entry [] d = bytes "?"
entry (name ∷ rest) zero = name
entry (name ∷ rest) (suc d) = entry rest d

unfoldable pub weekday_name : ℕ → Text
weekday_name d = if leb d sun then entry names d else bytes "?"

abbrev pub http_ok : ℕ
http_ok = 200

abbrev pub http_created : ℕ
http_created = 201

abbrev pub http_not_found : ℕ
http_not_found = 404

abbrev pub http_server_error : ℕ
http_server_error = 500

unfoldable pub http_label : ℕ → Text
http_label s =
    if s == http_ok
    then bytes "OK"
    else if s == http_created
    then bytes "Created"
    else if s == http_not_found
    then bytes "Not Found"
    else if s == http_server_error
    then bytes "Internal Server Error"
    else bytes "Unknown"

abbrev pub perm_read : ℕ
perm_read = 1

abbrev pub perm_write : ℕ
perm_write = 2

abbrev pub perm_execute : ℕ
perm_execute = 4

-- The signs after r, w and x.
unfoldable pub print_permissions : ℕ → Text
print_permissions perms =
    let sign : ℕ → ℕ = λ perm. if bit_and perms perm == 0 then b'-' else b'+' in
    sign perm_read ∷ sign perm_write ∷ sign perm_execute ∷ []

-- A tagged union: the constructor is the tag.
pub data Value (D : Type 0) : Type 0 where
  num : D → Value D
  str : Text → Value D
  boolean : ℤ → Value D

-- `strncpy` of at most 31 bytes into an array of 32 zeros.
unfoldable pub make_str : {D : Type 0} → Text → Value D
make_str s = str (take 31 s)

pub data Printed (D : Type 0) : Type 0 where
  number : D → Printed D
  text : Text → Printed D

unfoldable pub print_value : {D : Type 0} → Value D → Printed D
print_value (num v) = number v
print_value (str s) = text s
print_value (boolean b) = text (if b ==ℤ pos 0 then bytes "false" else bytes "true")

pub data Shape (D : Type 0) : Type 0 where
  circle : D → Shape D
  rect : D → D → Shape D
  triangle : D → D → D → Shape D

unfoldable pub shape_area : {D : Type 0} → Double D → D → Shape D → D
shape_area d pi (circle radius) = d.times (d.times pi radius) radius
shape_area d pi (rect width height) = d.times width height
shape_area d pi (triangle a b c) =
    let p = d.over (d.plus (d.plus a b) c) (d.of_int 2) in
    d.sqrt (d.times (d.times (d.times p (d.minus p a)) (d.minus p b)) (d.minus p c))

unfoldable pub shape_name : {D : Type 0} → Shape D → Text
shape_name (circle radius) = bytes "circle"
shape_name (rect width height) = bytes "rect"
shape_name (triangle a b c) = bytes "triangle"

-- `bytes[i]` of a `MultiView` that holds an `int`, where the lowest byte comes first.
unfoldable pub byte_of : ℕ → ℕ → ℕ
byte_of n i = n / 256 ^ i % 256
