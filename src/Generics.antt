-- ===== src/Generics.antt =====
-- exercises/21_generics/generics.c: the generic array and the least element of an array. The size of an
-- element and the copies of its bytes are those of a type `A`.
pub mod Vec
use c_programming.Prelude.{
  ℕ, zero, suc, ◌+◌, ◌-◌, ◌*◌, Bool, true, false, Option, none, some, List, [], ◌∷◌, if◌then◌else◌,
  ltb, leb, ◌==◌,
}
use c_programming.Prelude.Int.{ℤ, pos, negsuc, ltb_ℤ}
use c_programming.Prelude.Texts.{Text}

-- `(ia > ib) - (ia < ib)`
unfoldable pub cmp_int : ℤ → ℤ → ℤ
cmp_int ia ib = if ltb_ℤ ib ia then pos 1 else if ltb_ℤ ia ib then negsuc 0 else pos 0

module _ {A : Type 0} (arr : ℕ → A) (cmp : A → A → ℤ) where
  -- The loop of `generic_min` from place `i`, with the number of rounds left, and the place of `best`.
  unfoldable pub min_loop : ℕ → ℕ → ℕ → ℕ
  min_loop zero i best = best
  min_loop (suc left) i best =
      min_loop left (suc i) (if ltb_ℤ (cmp (arr i) (arr best)) (pos 0) then i else best)

  unfoldable pub generic_min : ℕ → ℕ
  generic_min n = min_loop (n - 1) 1 0

-- `data` holds what `items` tells below `len`.
pub record GenVec (A : Type 0) : Type 0 where
  pub items : ℕ → A
  pub len : ℕ
  pub cap : ℕ

module _ {A : Type 0} where
  -- The memory of an empty array holds anything.
  unfoldable pub genvec_new : (ℕ → A) → GenVec A
  genvec_new garbage = record { items = garbage; len = 0; cap = 0 }

  -- `realloc` answers memory or null; it keeps the items. 0 or -1 is returned.
  unfoldable pub genvec_push : Bool → GenVec A → A → Bool × GenVec A
  genvec_push realloc v elem =
      let full = v.len == v.cap in
      let newcap = if v.cap == 0 then 4 else v.cap * 2 in
      let items : ℕ → A = λ j. if j == v.len then elem else v.items j in
      if full
      then (if realloc
          then (true, record { items = items; len = v.len + 1; cap = newcap })
          else (false, v))
      else (true, record { items = items; len = v.len + 1; cap = v.cap })

  unfoldable pub genvec_get : GenVec A → ℕ → Option A
  genvec_get v i = if leb v.len i then none else some (v.items i)

  unfoldable pub genvec_free : GenVec A → GenVec A
  genvec_free v = record { items = v.items; len = 0; cap = 0 }

-- The tag is the constructor; `D` is `double`.
pub data Variant (D : Type 0) : Type 0 where
  var_int : ℤ → Variant D
  var_double : D → Variant D
  var_str : Text → Variant D

-- The loop of `section_type_tags` that sums the numbers among the items, with the addition of doubles
-- and the conversion of an `int`.
module _ {D : Type 0} (add : D → D → D) (of_int : ℤ → D) where
  unfoldable pub sum_numeric : List (Variant D) → D → D
  sum_numeric [] sum = sum
  sum_numeric (var_int i ∷ items) sum = sum_numeric items (add sum (of_int i))
  sum_numeric (var_double d ∷ items) sum = sum_numeric items (add sum d)
  sum_numeric (var_str s ∷ items) sum = sum_numeric items sum
