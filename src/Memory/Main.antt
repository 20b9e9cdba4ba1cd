-- ===== src/Memory/Main.antt =====
-- `main` of exercises/08_memory_management/memory.c: its allocations, what it frees and what it prints,
-- for each answer of the allocator.
mod Balance
mod Tests
use c_programming.Prelude.{
  ℕ, zero, suc, ◌+◌, ◌*◌, ◌≡◌, refl, Bool, true, false, Option, none, some, List, [], ◌∷◌, ◌++◌,
  if◌then◌else◌, ◌==◌, arith, Bool-cases, inl, inr, ap, ltb,
}
use c_programming.Prelude.Int.{ℤ, pos}
use c_programming.Prelude.Texts.{Text, bytes}
use c_programming.Prelude.Ints.{◌>>=◌}
use c_programming.Memory.{IntVec, vec_create, vec_push, dup_string}
use c_programming.Memory.Growth.{first}

-- A block is named by the call that asks for it.
pub data Block : Type 0 where
  arr zeroed buf bigger player team copy vec vec_data : Block
  grown_at : ℕ → Block

-- The events of a run, in their order.
pub data Event : Type 0 where
  got : Block → Event
  freed : Block → Event
  moved : Block → Block → Event  -- realloc: the first block is gone, the second is there
  number : ℕ → Event
  text : Text → Event
  value : ℤ → Event
  state : ℤ → ℕ → ℕ → Event
  failed : Event

-- Whether the call for a block is answered.
abbrev pub Answers : Type 0
Answers = Block → Bool

-- Each part is given what comes after it, which is left out where main returns 1.
unfoldable pub malloc_part : Answers → List Event → List Event
malloc_part ask rest =
    if ask arr
    then got arr ∷ number 10 ∷ number 20 ∷ number 30 ∷ number 40 ∷ number 50 ∷ freed arr ∷ rest
    else failed ∷ []

unfoldable pub calloc_part : Answers → List Event → List Event
calloc_part ask rest =
    if ask zeroed
    then got zeroed ∷ number 0 ∷ number 0 ∷ number 0 ∷ number 0 ∷ number 0 ∷ freed zeroed ∷ rest
    else failed ∷ []

unfoldable pub realloc_part : Answers → List Event → List Event
realloc_part ask rest =
    if ask buf
    then got buf
      ∷ number 0
      ∷ number 1
      ∷ number 2
      ∷ number 3
      ∷ (if ask bigger
          then moved buf bigger
            ∷ number 0
            ∷ number 1
            ∷ number 2
            ∷ number 3
            ∷ number 4
            ∷ number 5
            ∷ number 6
            ∷ number 7
            ∷ freed bigger
            ∷ rest
          else failed ∷ freed buf ∷ [])
    else failed ∷ []

unfoldable pub struct_part : Answers → List Event → List Event
struct_part ask rest =
    if ask player
    then got player ∷ text (bytes "Alice") ∷ number 9500 ∷ freed player ∷ rest
    else failed ∷ []

unfoldable pub structs_part : Answers → List Event → List Event
structs_part ask rest =
    if ask team
    then got team
      ∷ text (bytes "Bob")
      ∷ number 1000
      ∷ text (bytes "Carol")
      ∷ number 2000
      ∷ text (bytes "Dave")
      ∷ number 3000
      ∷ freed team
      ∷ rest
    else failed ∷ []

abbrev pub copied : Option Text → List Event → List Event
copied (some dst) rest = got copy ∷ text dst ∷ freed copy ∷ rest
copied none rest = failed ∷ []

unfoldable pub string_part : Answers → List Event → List Event
unfolding dup_string
string_part ask rest = copied (dup_string (ask copy) (bytes "Hello, heap!")) rest

abbrev pub numbers : List ℤ → List Event
numbers [] = []
numbers (v ∷ vs) = value v ∷ numbers vs

abbrev pub pushed : Option IntVec → (IntVec → List Event) → List Event
pushed (some v) k = k v
pushed none k = []

-- The pushes from the one of `i * 5`, with the block that holds the items, and what follows them; a
-- write outside the block would end the run at once. The state is printed after each.
unfoldable pub pushes : Answers → ℕ → ℕ → IntVec → Block → List Event
pushes ask zero i v b = numbers (first v.items v.size) ++ freed b ∷ freed vec ∷ []
pushes ask (suc left) i v b = pushed (vec_push (ask (grown_at i)) v (pos (i * 5))) (λ v'.
    let full = v.size == v.capacity in
    let moves = if full then ask (grown_at i) else false in
    let rest = pushes ask left (i + 1) v' (if moves then grown_at i else b) in
    let told = state (pos (i * 5)) v'.size v'.capacity ∷ rest in
    if moves then moved b (grown_at i) ∷ told else if full then failed ∷ told else told)

abbrev pub created : Answers → Option IntVec → List Event
created ask (some v) = got vec ∷ got vec_data ∷ pushes ask 8 1 v vec_data
created ask none = if ask vec then got vec ∷ freed vec ∷ failed ∷ [] else failed ∷ []

unfoldable pub vector_part : Answers → List Event
unfolding pushes
vector_part ask = created ask (vec_create (ask vec) (ask vec_data) (λ _. pos 0) 2)

unfoldable pub main : Answers → List Event
unfolding malloc_part calloc_part realloc_part struct_part structs_part string_part vector_part
main ask = malloc_part ask (
    calloc_part ask
      (realloc_part ask (struct_part ask (structs_part ask (string_part ask (vector_part ask))))))

-- The blocks of a run so far. `none`: a block is freed, or moved, that is not there.
abbrev pub block_id : Block → ℕ
block_id arr = 0
block_id zeroed = 1
block_id buf = 2
block_id bigger = 3
block_id player = 4
block_id team = 5
block_id copy = 6
block_id vec = 7
block_id vec_data = 8
block_id (grown_at i) = i + 9

abbrev pub remove : Block → List Block → Option (List Block)
remove b [] = none
remove b (c ∷ l) = if block_id b == block_id c then some l else remove b l >>= λ r. some (c ∷ r)

unfoldable pub replay : List Event → List Block → Option (List Block)
replay [] l = some l
replay (got b ∷ es) l = replay es (b ∷ l)
replay (freed b ∷ es) l = remove b l >>= λ r. replay es r
replay (moved b c ∷ es) l = remove b l >>= λ r. replay es (c ∷ r)
replay (number n ∷ es) l = replay es l
replay (text t ∷ es) l = replay es l
replay (state x n m ∷ es) l = replay es l
replay (value v ∷ es) l = replay es l
replay (failed ∷ es) l = replay es l
