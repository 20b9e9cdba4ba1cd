-- ===== src/Memory/Growth.antt =====
-- The growing array of exercises/08_memory_management/memory.c holds what was pushed, and copies little.
use c_programming.Prelude.{
  ℕ, zero, suc, ◌+◌, ◌*◌, ◌≤◌, ◌<◌, ◌≡◌, refl, sym, ap, subst, ◌∙◌, Bool, true, false, none, some,
  List, [], ◌∷◌, ◌++◌, if◌then◌else◌, ltb, ◌==◌, length, length-append, arith, ◌&&◌, not,
  Bool-cases, inl, inr, max,
}
use mathlib.Core.List.{append_assoc, append-nil}
use c_programming.Prelude.Int.{ℤ}
use c_programming.Prelude.Ints.{int_end, ◌>>=◌}
use c_programming.Memory.{IntVec, vec_create, append_item, vec_push, copies, push_all}

-- The first `n` items.
abbrev pub first : (ℕ → ℤ) → ℕ → List ℤ
first f zero = []
first f (suc n) = first f n ++ f n ∷ []

abbrev pub contents : IntVec → List ℤ
contents v = first v.items v.size

first-same : (f g : ℕ → ℤ) (n : ℕ) → ((i : ℕ) → i < n → f i ≡ g i) → first f n ≡ first g n
first-same f g zero same = refl
first-same f g (suc n) same =
    ap (λ l. l ++ f n ∷ []) (first-same f g n (λ i h. same i (omega arith)))
    ∙ ap (λ x. first g n ++ x ∷ []) (same n (omega arith))

length-first : (f : ℕ → ℤ) (n : ℕ) → length (first f n) ≡ n
length-first f zero = refl
length-first f (suc n) = omega (arith, length-first f n, length-append (first f n) (f n ∷ []))

one_more : (n : ℕ) → n + 1 ≡ suc n
one_more n = omega arith

-- What a push that had room, or got it, leaves.
pub record Pushed (v : IntVec) (value : ℤ) (v' : IntVec) : Type 0 where
  pub listed : contents v' ≡ contents v ++ value ∷ []
  pub sized : v'.size ≡ v.size + 1
  pub room : v'.size ≤ v'.capacity
  pub grown : v'.capacity ≡ (if v.size == v.capacity then v.capacity * 2 else v.capacity)

listed_lem :
    (f : ℕ → ℤ) (n : ℕ) (x : ℤ)
    → first (λ i. if i == n then x else f i) (n + 1) ≡ first f n ++ x ∷ []
listed_lem f n x =
    ap (first (λ i. if i == n then x else f i)) (one_more n)
    ∙ ap (λ l. l ++ (if n == n then x else f n) ∷ [])
        (first-same (λ i. if i == n then x else f i) f n (λ i h. ground arith))
    ∙ ap (λ y. first f n ++ y ∷ []) (self n)
  where
    self : (n : ℕ) → (if n == n then x else f n) ≡ x
    self n = ground arith

-- A push adds the value at the end, doubling the capacity where the array is full; where realloc
-- answers null a full array stays as it is. The array has a place at least, and twice its size is an
-- `int`.
pub vec_push-Pushed :
    (realloc : Bool) (v : IntVec) (value : ℤ)
    → v.size ≤ v.capacity
    → 0 < v.capacity
    → v.size * 2 < int_end
    → if (v.size == v.capacity) && not realloc
      then vec_push realloc v value ≡ some v
      else ((v' : IntVec) × (vec_push realloc v value ≡ some v') × Pushed v value v')
unfolding vec_push append_item
vec_push-Pushed realloc v value small some_place few = elim (Bool-cases (v.size == v.capacity)) [
  | inl full ↦
      let fits : ltb (v.capacity * 2) int_end ≡ true = ground arith in
      let room : ltb v.size (v.capacity * 2) ≡ true = ground arith in
      elim (Bool-cases realloc) [
        | inl got ↦
            rw (full, got, fits, room)
              (
                _,
                refl,
                record {
                  listed = listed_lem v.items v.size value;
                  sized = refl;
                  room = ground arith;
                  grown = rw full refl;
                },
              )
        | inr null ↦ rw (full, null, fits) refl
      ]
  | inr part ↦
      let room : ltb v.size v.capacity ≡ true = ground arith in
      rw (part, room)
        (
          _,
          refl,
          record {
            listed = listed_lem v.items v.size value;
            sized = refl;
            room = ground arith;
            grown = rw part refl;
          },
        )
]

-- With no place at all, as after `vec_create(0)`, a push writes outside the block: twice 0 is 0.
vec_push-zero :
    (v : IntVec) (value : ℤ) → v.size ≡ 0 → v.capacity ≡ 0 → vec_push true v value ≡ none
unfolding vec_push append_item
vec_push-zero v value e f = ground arith

-- The state of the pushes so far, on an array that started with `c` places.
record IsGrown (c : ℕ) (v : IntVec) (copied : ℕ) : Type 0 where
  room : v.size ≤ v.capacity
  place : 0 < v.capacity
  cost : copied + c ≤ v.capacity
  tight : v.capacity ≤ max c (2 * v.size)

pushed_more :
    (c : ℕ) (v v' : IntVec) (copied : ℕ) (x : ℤ)
    → IsGrown c v copied
    → Pushed v x v'
    → IsGrown c v' (copied + copies v)
unfolding copies
pushed_more c v v' copied x g p = elim (Bool-cases (v.size == v.capacity)) [
  | inl full ↦
      let grown : v'.capacity ≡ v.capacity * 2 =
        p.grown ∙ ap (λ b. if b then v.capacity * 2 else v.capacity) full in
      let same : v.size ≡ v.capacity = ground arith in
      record {
        room = p.room;
        place = omega (arith, g.place);
        cost = rw full (omega (arith, g.cost));
        tight = omega (arith, p.sized);
      }
  | inr part ↦
      let grown : v'.capacity ≡ v.capacity =
        p.grown ∙ ap (λ b. if b then v.capacity * 2 else v.capacity) part in
      record {
        room = p.room;
        place = omega (arith, g.place);
        cost = rw part (omega (arith, g.cost));
        tight = omega (arith, p.sized, g.tight);
      }
]

otherwise : (A B : Type 0) (b : Bool) → (if b && not true then A else B) → B
otherwise A B true h = h
otherwise A B false h = h

pushed :
    (v : IntVec) (x : ℤ)
    → v.size ≤ v.capacity
    → 0 < v.capacity
    → v.size * 2 < int_end
    → (v' : IntVec) × (vec_push true v x ≡ some v') × Pushed v x v'
pushed v x small place few =
    otherwise _ _ (v.size == v.capacity) (vec_push-Pushed true v x small place few)

-- What the pushes of a list leave.
pub record Filled (c : ℕ) (items : List ℤ) (v : IntVec) (copied : ℕ) : Type 0 where
  pub listed : contents v ≡ items
  pub tight : v.capacity ≤ max c (2 * length items)
  pub cheap : copied ≤ 2 * length items

grown-cheap :
    (c : ℕ) (v : IntVec) (copied : ℕ) → IsGrown c v copied → Filled c (contents v) v copied
grown-cheap c v copied g = record {
  listed = refl;
  tight = omega (arith, g.tight, length-first v.items v.size);
  cheap = omega (arith, g.tight, g.cost, length-first v.items v.size);
}

push_all-Grown :
    (c : ℕ) (xs : List ℤ) (v : IntVec) (copied : ℕ)
    → IsGrown c v copied
    → (v.size + length xs) * 2 < int_end
    → (w : IntVec) × (total : ℕ) × (push_all v copied xs ≡ some (w, total))
      × Filled c (contents v ++ xs) w total
unfolding push_all
push_all-Grown c [] v copied g few = (
  v,
  copied,
  refl,
  subst (λ l. Filled c l v copied) (sym (append-nil (contents v))) (grown-cheap c v copied g),
)
push_all-Grown c (x ∷ xs) v copied g few =
    let (v', run, p) = pushed v x g.room g.place (omega arith) in
    let (w, total, rest, filled) =
      push_all-Grown c xs v' (copied + copies v) (pushed_more c v v' copied x g p)
        (omega (arith, p.sized)) in
    (
      w,
      total,
      ap (λ m. m >>= λ u. push_all u (copied + copies v) xs) run ∙ rest,
      subst (λ l. Filled c l w total)
          (ap (λ l. l ++ xs) p.listed ∙ append_assoc (contents v) (x ∷ []) xs) filled,
    )

-- As long as malloc and realloc answer memory, an array that starts empty with `c` places, one at
-- least, holds the values pushed, in their order. Its capacity is at most the larger of `c` and twice
-- their number, and all growths together copy at most two items for each value.
pub push_all-Filled :
    (garbage : ℕ → ℤ) (c : ℕ) (xs : List ℤ)
    → 0 < c
    → length xs * 2 < int_end
    → (v w : IntVec) × (copied : ℕ) × (vec_create true true garbage c ≡ some v)
      × (push_all v 0 xs ≡ some (w, copied))
      × Filled c xs w copied
unfolding vec_create
push_all-Filled garbage c xs some_place few =
    let v : IntVec = record { items = garbage; size = 0; capacity = c } in
    let start : IsGrown c v 0 = record {
      room = omega arith;
      place = some_place;
      cost = omega arith;
      tight = omega arith;
    } in
    let (w, total, run, filled) = push_all-Grown c xs v 0 start (omega arith) in
    (v, w, total, refl, run, filled)
