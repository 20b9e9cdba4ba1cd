-- ===== src/SearchTree/Insert.antt =====
-- `bst_insert`: the values, the order and the count after an insertion.
use c_programming.Prelude.{
  ◌+◌, ◌≡◌, refl, ◌≢◌, true, some, ◌||◌, if◌then◌else◌, arith, Bool-cases, inl, inr,
}
use c_programming.Prelude.Int.{ℤ, ltb_ℤ, ◌==ℤ◌, eq_of_==ℤ, ==ℤ_refl}
use c_programming.Nodes.{Ptr, null}
use c_programming.SearchTree.{Tree, empty, node, insert, count}
use c_programming.SearchTree.Member.{mem, IsBst}

-- What an insertion of `v` into `t` leaves.
pub record Inserted (t : Tree) (v : ℤ) (t' : Tree) : Type 0 where
  pub ordered : IsBst t'
  pub members : (u : ℤ) → mem u t' ≡ ((u ==ℤ v) || mem u t)
  pub counted : count t' ≡ count t + (if mem v t then 0 else 1)

-- `bst_insert` into a search tree, where `malloc` does not answer null, ends in a search tree that
-- holds the value and the values from before, with one more node exactly where the value was new.
pub insert-Inserted :
    (p : Ptr) (t : Tree) (v : ℤ)
    → p ≢ null
    → IsBst t
    → (t' : Tree) × (insert p t v ≡ some t') × Inserted t v t'
unfolding insert mem count
insert-Inserted p empty v ne b = (
  node p empty v empty,
  ground arith,
  record { ordered = (tt, tt, λ u m. cc, λ u m. cc); members = λ u. ground arith; counted = refl },
)
insert-Inserted p (node a l x r) v ne (bl, br, below, above) = elim (Bool-cases (ltb_ℤ v x)) [
  | inl lower ↦
      let (l', run, done) = insert-Inserted p l v ne bl in
      (
        node a l' x r,
        rw (lower, run),
        record {
          ordered = (
            done.ordered,
            br,
            λ u m. ground (arith, done.members u, below u, eq_of_==ℤ u v),
            above,
          );
          members = λ u. ground (arith, done.members u);
          counted = ground (arith, done.counted, above v);
        },
      )
  | inr not_lower ↦ elim (Bool-cases (ltb_ℤ x v)) [
    | inl higher ↦
        let (r', run, done) = insert-Inserted p r v ne br in
        (
          node a l x r',
          rw (not_lower, higher, run),
          record {
            ordered = (
              bl,
              done.ordered,
              below,
              λ u m. ground (arith, done.members u, above u, eq_of_==ℤ u v),
            );
            members = λ u. ground (arith, done.members u);
            counted = ground (arith, done.counted, below v);
          },
        )
    | inr not_higher ↦
        let here : v ≡ x = ground (arith, eq_of_==ℤ v x) in
        (
          node a l x r,
          rw (not_lower, not_higher),
          record {
            ordered = (bl, br, below, above);
            members = λ u. ground (arith);
            counted = ground (arith, ==ℤ_refl v);
          },
        )
  ]
]

-- `bst_insert` of a value that the tree holds changes nothing, and asks for no memory.
pub insert_member : (p : Ptr) (t : Tree) (v : ℤ) → IsBst t → mem v t ≡ true → insert p t v ≡ some t
unfolding insert mem
insert_member p empty v b m = cc
insert_member p (node a l x r) v (bl, br, below, above) m =
    ground (arith, insert_member p l v bl, insert_member p r v br, below v, above v, eq_of_==ℤ v x)
