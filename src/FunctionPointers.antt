-- ===== src/FunctionPointers.antt =====
-- exercises/11_function_pointers/function_pointers.c: callbacks, the dispatch table, and main.
mod Main
mod Tests
use c_programming.Prelude.{
  ℕ, zero, suc, ◌+◌, Bool, true, false, Option, none, some, List, [], ◌∷◌, ◌++◌, if◌then◌else◌, ltb,
  leb, ◌==◌, ◌||◌, Bool-cases, inl, inr,
}
use c_programming.Prelude.Int.{ℤ, pos, negsuc, ltb_ℤ}
use c_programming.Prelude.Ints.{add_int, sub_int, mul_int, ◌>>=◌}

-- A call overflows, `none`, or returns an `int`.
abbrev pub BinaryOp : Type 0
BinaryOp = ℤ → ℤ → Option ℤ

unfoldable pub add : BinaryOp
unfolding add_int
add a b = add_int a b

unfoldable pub subtract : BinaryOp
unfolding sub_int
subtract a b = sub_int a b

unfoldable pub multiply : BinaryOp
unfolding mul_int
multiply a b = mul_int a b

-- A callback that prints one line.
abbrev pub IntCallback : Type 0
IntCallback = ℤ → Option ℤ

abbrev pub print_value : IntCallback
print_value x = some x

unfoldable pub print_doubled : IntCallback
unfolding mul_int
print_doubled x = mul_int x (pos 2)

unfoldable pub print_square : IntCallback
unfolding mul_int
print_square x = mul_int x x

-- The lines that `map` prints.
unfoldable pub map : List ℤ → IntCallback → Option (List ℤ)
map [] fn = some []
map (x ∷ arr) fn = fn x >>= λ line. map arr fn >>= λ lines. some (line ∷ lines)

-- The loop of `reduce` over the places that are left.
unfoldable pub reduce_loop : List ℤ → ℤ → BinaryOp → Option ℤ
reduce_loop [] acc op = some acc
reduce_loop (x ∷ arr) acc op = op acc x >>= λ acc'. reduce_loop arr acc' op

unfoldable pub reduce : List ℤ → ℤ → BinaryOp → Option ℤ
unfolding reduce_loop
reduce arr initial op = reduce_loop arr initial op

-- The table has a place for each character up to the last one that is set; the others hold NULL.
abbrev pub table_size : ℕ
table_size = b'-' + 1

abbrev pub table : ℕ → Option BinaryOp
table i =
    if i == b'+'
    then some add
    else if i == b'-'
    then some subtract
    else if i == b'*'
    then some multiply
    else none

pub data Dispatched : Type 0 where
  unknown : Dispatched  -- the message on stderr, and 0
  called : Option ℤ → Dispatched

abbrev pub call_entry : Option BinaryOp → ℤ → ℤ → Dispatched
call_entry none a b = unknown
call_entry (some f) a b = called (f a b)

-- `char` is signed: a negative `op` is refused by the first test.
unfoldable pub dispatch : ℤ → ℤ → ℤ → Dispatched
dispatch a b (negsuc n) = unknown
dispatch a b (pos op) = if leb table_size op then unknown else call_entry (table op) a b

unfoldable pub get_operation : ℤ → Option BinaryOp
get_operation (negsuc n) = none
get_operation (pos op) =
    if op == b'+'
    then some add
    else if op == b'-'
    then some subtract
    else if op == b'*'
    then some multiply
    else none

unfoldable pub cmp_int_asc : ℤ → ℤ → ℤ
cmp_int_asc ia ib = if ltb_ℤ ib ia then pos 1 else if ltb_ℤ ia ib then negsuc 0 else pos 0

unfoldable pub cmp_int_desc : ℤ → ℤ → ℤ
cmp_int_desc ia ib = if ltb_ℤ ia ib then pos 1 else if ltb_ℤ ib ia then negsuc 0 else pos 0
