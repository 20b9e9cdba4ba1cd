-- ===== src/Memory.antt =====
-- exercises/08_memory_management/memory.c: the array that grows on demand, the copy of a string, and
-- main with its allocations. What the allocator answers is an argument.
pub mod Growth
mod Main
mod Tests
use c_programming.Prelude.{
  ℕ, zero, suc, ◌+◌, ◌-◌, ◌*◌, ◌≡◌, Bool, true, false, Option, none, some, List, [], ◌∷◌, ◌++◌,
  if◌then◌else◌, ltb, leb, ◌==◌, length, take,
}
use c_programming.Prelude.Int.{ℤ, pos}
use c_programming.Prelude.Ints.{int_end, ◌>>=◌}
use c_programming.Prelude.Texts.{Text}

-- `items` tells what the block at `data` holds below `capacity`. Neither number is negative.
pub record IntVec : Type 0 where
  pub items : ℕ → ℤ
  pub size : ℕ
  pub capacity : ℕ

-- The two calls of malloc answer memory or null; a new block holds anything. `none` is null.
unfoldable pub vec_create : Bool → Bool → (ℕ → ℤ) → ℕ → Option IntVec
vec_create vec_memory data_memory garbage initial_capacity =
    if vec_memory
    then (if data_memory
        then some (record { items = garbage; size = 0; capacity = initial_capacity })
        else none)
    else none

-- `v->data[v->size++] = value`; `none` is a write outside the block.
unfoldable pub append_item : IntVec → ℤ → Option IntVec
append_item v value =
    if ltb v.size v.capacity
    then some
        (record v { items = λ i. if i == v.size then value else v.items i; size = v.size + 1 })
    else none

-- The block moves with what it holds, and its rest holds anything; `none` is an overflow of the new
-- capacity or a write outside the block. If realloc answers null, the array stays as it is.
unfoldable pub vec_push : Bool → IntVec → ℤ → Option IntVec
unfolding append_item
vec_push realloc v value =
    if v.size == v.capacity
    then (if ltb (v.capacity * 2) int_end
        then (if realloc
            then append_item (record v { capacity = v.capacity * 2 }) value
            else some v)
        else none)
    else append_item v value

-- How many items realloc has to copy for a push, at most.
unfoldable pub copies : IntVec → ℕ
copies v = if v.size == v.capacity then v.size else 0

-- A push for each value, with the number of items copied so far; realloc answers memory.
unfoldable pub push_all : IntVec → ℕ → List ℤ → Option (IntVec × ℕ)
unfolding copies vec_push
push_all v copied [] = some (v, copied)
push_all v copied (x ∷ xs) = vec_push true v x >>= λ v'. push_all v' (copied + copies v) xs

-- A string and the 0 at its end, copied to a block of that many bytes; `none` is null.
unfoldable pub dup_string : Bool → Text → Option Text
dup_string malloc src =
    let len = length src + 1 in if malloc then some (take len (src ++ 0 ∷ [])) else none
