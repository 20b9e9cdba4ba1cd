-- ===== src/Generics/Vec.antt =====
-- The generic array as a list that grows, and the place of a least element.
use c_programming.Prelude.{
  ℕ, ◌≤◌, ◌≡◌, refl, Bool, some, if◌then◌else◌, ◌==◌, arith, Bool-cases, inl, inr,
}
use c_programming.Generics.{GenVec, genvec_push, genvec_get}

module _ {A : Type 0} (v : GenVec A) (elem : A) (fits : v.len ≤ v.cap) where
  -- `genvec_push` keeps the items in the memory that there is. Where it returns 0, the new item is read
  -- at the end and every other one as before; where it returns -1, nothing has changed.
  pub genvec_get-genvec_push :
      (realloc : Bool) (i : ℕ)
      → let (done, w) = genvec_push realloc v elem in
        (w.len ≤ w.cap)
        × (genvec_get w i
            ≡ (if done then (if i == v.len then some elem else genvec_get v i) else genvec_get v i))
  unfolding genvec_push genvec_get
  genvec_get-genvec_push realloc i = elim (Bool-cases (v.len == v.cap)) [
    | inl full ↦ elim (Bool-cases realloc) [
      | inl given ↦ rw (full, given) (ground arith, ground arith)
      | inr refused ↦ rw (full, refused) (fits, refl)
    ]
    | inr room ↦ rw room (ground arith, ground arith)
  ]
