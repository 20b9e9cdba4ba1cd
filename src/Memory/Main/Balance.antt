-- ===== src/Memory/Main/Balance.antt =====
-- Every path through `main` of exercises/08_memory_management/memory.c frees what it was given.
use c_programming.Prelude.{
  ℕ, zero, suc, ◌+◌, ◌*◌, ◌≤◌, ◌<◌, ◌≡◌, refl, ◌∙◌, Bool, true, false, some, List, [], ◌∷◌, ◌++◌,
  if◌then◌else◌, ◌==◌, ==_refl, arith, Bool-cases, inl, inr, ◌&&◌, not,
}
use c_programming.Prelude.Int.{ℤ, pos}
use c_programming.Prelude.Ints.{int_end}
use c_programming.Memory.{IntVec, vec_create, vec_push, dup_string}
use c_programming.Memory.Growth.{first, Pushed, vec_push-Pushed}
use c_programming.Memory.Main.{
  Block, arr, zeroed, buf, bigger, player, team, copy, vec, vec_data, grown_at, Event, state,
  failed, freed, Answers, malloc_part, calloc_part, realloc_part, struct_part, structs_part,
  string_part, numbers, pushes, vector_part, main, block_id, replay,
}

module _ (ask : Answers) (rest : List Event) (clean : replay rest [] ≡ some []) where
  malloc_part-clean : replay (malloc_part ask rest) [] ≡ some []
  unfolding malloc_part replay
  malloc_part-clean = elim (Bool-cases (ask arr)) [ inl e ↦ rw e clean | inr e ↦ rw e refl ]

  calloc_part-clean : replay (calloc_part ask rest) [] ≡ some []
  unfolding calloc_part replay
  calloc_part-clean = elim (Bool-cases (ask zeroed)) [ inl e ↦ rw e clean | inr e ↦ rw e refl ]

  realloc_part-clean : replay (realloc_part ask rest) [] ≡ some []
  unfolding realloc_part replay
  realloc_part-clean = elim (Bool-cases (ask buf)) [
    | inl e ↦ elim (Bool-cases (ask bigger)) [ inl f ↦ rw (e, f) clean | inr f ↦ rw (e, f) refl ]
    | inr e ↦ rw e refl
  ]

  struct_part-clean : replay (struct_part ask rest) [] ≡ some []
  unfolding struct_part replay
  struct_part-clean = elim (Bool-cases (ask player)) [ inl e ↦ rw e clean | inr e ↦ rw e refl ]

  structs_part-clean : replay (structs_part ask rest) [] ≡ some []
  unfolding structs_part replay
  structs_part-clean = elim (Bool-cases (ask team)) [ inl e ↦ rw e clean | inr e ↦ rw e refl ]

  string_part-clean : replay (string_part ask rest) [] ≡ some []
  unfolding string_part dup_string replay
  string_part-clean = elim (Bool-cases (ask copy)) [
    | inl e ↦ rw (e, dup_string) clean
    | inr e ↦ rw (e, dup_string) refl
  ]

-- The blocks of the array are those at `b` and `vec`, and no other is there.
abbrev held : Block → List Block
held b = b ∷ vec ∷ []

numbers-replay :
    (vs : List ℤ) (es : List Event) (l : List Block) → replay (numbers vs ++ es) l ≡ replay es l
unfolding replay
numbers-replay [] es l = refl
numbers-replay (v ∷ vs) es l = numbers-replay vs es l

moved-replay :
    (b c : Block) (es : List Event) → replay (Event.moved b c ∷ es) (held b) ≡ replay es (held c)
unfolding replay
moved-replay b c es = rw (==_refl (block_id b)) refl

freed-replay : (b : Block) → replay (freed b ∷ freed vec ∷ []) (held b) ≡ some []
unfolding replay
freed-replay b = rw (==_refl (block_id b)) refl

state-replay :
    (x : ℤ) (n m : ℕ) (es : List Event) (l : List Block) → replay (state x n m ∷ es) l ≡ replay es l
unfolding replay
state-replay x n m es l = refl

failed-replay : (es : List Event) (l : List Block) → replay (failed ∷ es) l ≡ replay es l
unfolding replay
failed-replay es l = refl

-- A push of a small array ends, whatever realloc answers.
record Room (v v' : IntVec) : Type 0 where
  small : v'.size ≤ v'.capacity
  place : 0 < v'.capacity
  more : v'.size ≤ v.size + 1

push_ends :
    (r : Bool) (v : IntVec) (x : ℤ)
    → v.size ≤ v.capacity
    → 0 < v.capacity
    → v.size * 2 < int_end
    → (v' : IntVec) × (vec_push r v x ≡ some v') × Room v v'
push_ends r v x small place few =
    let p = vec_push-Pushed r v x small place few in
    elim (Bool-cases ((v.size == v.capacity) && not r)) [
      | inl stuck ↦ (v, rw stuck at p, record { small = small; place = place; more = omega arith })
      | inr done ↦ let (v', run, q) = rw done at p in (v', run, room v' q)
    ]
  where
    room : (v' : IntVec) → Pushed v x v' → Room v v'
    room v' q = record {
      small = q.room;
      place = ground (arith, q.grown);
      more = omega (arith, q.sized);
    }

-- The events of a push, by whether the array was full and what realloc answered.
after :
    (b g : Block) (x : ℤ) (n m : ℕ) (rest : Block → List Event)
    → ((c : Block) → replay (rest c) (held c) ≡ some [])
    → (full r : Bool)
    → (let moves = if full then r else false in
        let told = state x n m ∷ rest (if moves then g else b) in
        replay
          (if moves then Event.moved b g ∷ told else if full then failed ∷ told else told)
          (held b))
      ≡ some []
after b g x n m rest clean true true =
    moved-replay b g _ ∙ state-replay x n m (rest g) (held g) ∙ clean g
after b g x n m rest clean true false =
    failed-replay _ (held b) ∙ state-replay x n m (rest b) (held b) ∙ clean b
after b g x n m rest clean false r = state-replay x n m (rest b) (held b) ∙ clean b

pushes-clean :
    (ask : Answers) (left i : ℕ) (v : IntVec) (b : Block)
    → v.size ≤ v.capacity
    → 0 < v.capacity
    → v.size + left ≤ 8
    → replay (pushes ask left i v b) (held b) ≡ some []
unfolding pushes
pushes-clean ask zero i v b small place few =
    numbers-replay (first v.items v.size) (freed b ∷ freed vec ∷ []) (held b) ∙ freed-replay b
pushes-clean ask (suc left) i v b small place few =
    let (v', run, room) = push_ends (ask (grown_at i)) v (pos (i * 5)) small place (omega arith) in
    rw run (
      after b (grown_at i) (pos (i * 5)) v'.size v'.capacity (pushes ask left (i + 1) v')
        (λ c. pushes-clean ask left (i + 1) v' c room.small room.place (omega (arith, room.more)))
        (v.size == v.capacity) (ask (grown_at i)))

vector_part-clean : (ask : Answers) → replay (vector_part ask) [] ≡ some []
unfolding vector_part replay vec_create
vector_part-clean ask = elim (Bool-cases (ask vec)) [
  | inl got ↦ elim (Bool-cases (ask vec_data)) [
    | inl both ↦
        rw (got, both, vec_create)
          (pushes-clean ask 8 1 (record { items = λ _. pos 0; size = 0; capacity = 2 }) vec_data
            (omega arith) (omega arith) (omega arith))
    | inr null ↦ rw (got, null, vec_create) (rw got refl)
  ]
  | inr null ↦ rw (null, vec_create) (rw null refl)
]

-- On every path through main, whatever the allocator answers to each call, each block that it was given
-- is freed once, no block is freed that is not there, and no push writes outside its block.
pub main-balanced : (ask : Answers) → replay (main ask) [] ≡ some []
unfolding main
main-balanced ask = malloc_part-clean ask _ (
    calloc_part-clean ask _ (
      realloc_part-clean ask _ (
        struct_part-clean ask _
          (structs_part-clean ask _ (string_part-clean ask _ (vector_part-clean ask))))))
