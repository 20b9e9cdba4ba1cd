-- ===== src/SearchTree/Delete.antt =====
-- `bst_min`, `bst_max` and `bst_delete`: the values, the order and the frees.
use c_programming.Prelude.{
  ℕ, ◌+◌, ◌≡◌, refl, true, false, Option, some, ◌||◌, ◌&&◌, not, if◌then◌else◌, arith, Bool-cases,
  inl, inr, ◌==◌, List, [], ◌∷◌,
}
use c_programming.Prelude.Int.{ℤ, ltb_ℤ, ◌==ℤ◌, ◌<ℤ◌, ◌≤ℤ◌, eq_of_==ℤ, ==ℤ_refl}
use c_programming.Nodes.{Ptr}
use c_programming.SearchTree.{Tree, empty, node, delete, delete_here, min, max, value_at, Cut}
use c_programming.SearchTree.Member.{mem, IsBst}

-- `m` is a value of the tree, and no value is smaller.
abbrev pub IsLeast : Tree → ℤ → Type 0
IsLeast t m = (mem m t ≡ true) × ((u : ℤ) → mem u t ≡ true → m ≤ℤ u)

abbrev pub IsGreatest : Tree → ℤ → Type 0
IsGreatest t m = (mem m t ≡ true) × ((u : ℤ) → mem u t ≡ true → u ≤ℤ m)

module _ (a : Ptr) (l : Tree) (x : ℤ) (r : Tree) (b : IsBst (node a l x r)) where
  IsLeast-left : (m : ℤ) → IsLeast l m → IsLeast (node a l x r) m
  unfolding mem
  IsLeast-left m (here, least) =
      (ground (arith, here), λ u i. ground (arith, least u, b.2 m here, b.3 u, eq_of_==ℤ u x))

  IsGreatest-right : (m : ℤ) → IsGreatest r m → IsGreatest (node a l x r) m
  unfolding mem
  IsGreatest-right m (here, greatest) =
      (ground (arith, here), λ u i. ground (arith, greatest u, b.3 m here, b.2 u, eq_of_==ℤ u x))

-- `bst_min` of a tree that is not empty finds its least value.
pub min-IsLeast :
    (a : Ptr) (l : Tree) (x : ℤ) (r : Tree)
    → IsBst (node a l x r)
    → (m : ℤ) × (value_at (min (node a l x r)) ≡ some m) × IsLeast (node a l x r) m
unfolding min mem
min-IsLeast a empty x r (bl, br, below, above) =
    (x, refl, (ground (arith, ==ℤ_refl x), λ u m. ground (arith, above u, eq_of_==ℤ u x)))
min-IsLeast a (node b l y r') x r bst =
    let (m, run, least) = min-IsLeast b l y r' (bst.0) in
    (m, run, IsLeast-left a (node b l y r') x r bst m least)

-- `bst_max` of a tree that is not empty finds its greatest value.
pub max-IsGreatest :
    (a : Ptr) (l : Tree) (x : ℤ) (r : Tree)
    → IsBst (node a l x r)
    → (m : ℤ) × (value_at (max (node a l x r)) ≡ some m) × IsGreatest (node a l x r) m
unfolding max mem
max-IsGreatest a l x empty (bl, br, below, above) =
    (x, refl, (ground (arith, ==ℤ_refl x), λ u m. ground (arith, below u, eq_of_==ℤ u x)))
max-IsGreatest a l x (node b l' y r) bst =
    let (m, run, greatest) = max-IsGreatest b l' y r (bst.1) in
    (m, run, IsGreatest-right a l x (node b l' y r) bst m greatest)

-- How often an address stands in the tree, and among the addresses that are freed.
unfoldable pub uses : Ptr → Tree → ℕ
uses q empty = 0
uses q (node a l x r) = (if q == a then 1 else 0) + uses q l + uses q r

unfoldable pub frees : Ptr → List Ptr → ℕ
frees q [] = 0
frees q (a ∷ rest) = (if q == a then 1 else 0) + frees q rest

-- What a deletion of `v` from `t` leaves: a search tree of the other values, and each node of `t`
-- either in it or freed.
pub record Deleted (t : Tree) (v : ℤ) (c : Cut) : Type 0 where
  pub ordered : IsBst (c.0)
  pub members : (u : ℤ) → mem u (c.0) ≡ (mem u t && not (u ==ℤ v))
  pub nodes : (q : Ptr) → uses q (c.0) + frees q (c.1) ≡ uses q t

module _ (a : Ptr) (l : Tree) (x : ℤ) (r : Tree) (v : ℤ) (b : IsBst (node a l x r)) where
  delete_left :
      (l' : Tree) (freed : List Ptr)
      → v <ℤ x
      → Deleted l v (l', freed)
      → Deleted (node a l x r) v (node a l' x r, freed)
  unfolding mem uses
  delete_left l' freed lower d = record {
    ordered = (d.ordered, b.1, λ u i. ground (arith, d.members u, b.2 u), b.3);
    members = λ u. ground (arith, d.members u, b.3 u, eq_of_==ℤ u v, eq_of_==ℤ u x);
    nodes = λ q. omega (arith, d.nodes q);
  }

  delete_right :
      (r' : Tree) (freed : List Ptr)
      → x <ℤ v
      → Deleted r v (r', freed)
      → Deleted (node a l x r) v (node a l x r', freed)
  unfolding mem uses
  delete_right r' freed higher d = record {
    ordered = (b.0, d.ordered, b.2, λ u i. ground (arith, d.members u, b.3 u));
    members = λ u. ground (arith, d.members u, b.2 u, eq_of_==ℤ u v, eq_of_==ℤ u x);
    nodes = λ q. omega (arith, d.nodes q);
  }

  -- The least value on the right takes the place of the value that goes.
  delete_both :
      (s : ℤ) (r' : Tree) (freed : List Ptr)
      → v ≡ x
      → IsLeast r s
      → Deleted r s (r', freed)
      → Deleted (node a l x r) v (node a l s r', freed)
  unfolding mem uses
  delete_both s r' freed same (here, least) d = record {
    ordered = (
      b.0,
      d.ordered,
      λ u i. ground (arith, b.2 u i, b.3 s here),
      λ u i. ground (arith, d.members u, least u, eq_of_==ℤ u s),
    );
    members =
        λ u. ground (arith, d.members u, b.2 u, b.3 u, b.3 s here, eq_of_==ℤ u s, eq_of_==ℤ u x);
    nodes = λ q. omega (arith, d.nodes q);
  }

delete_here-Deleted :
    (a : Ptr) (l : Tree) (x : ℤ) (r : Tree) (v : ℤ) (cut : ℤ → Option Cut)
    → IsBst (node a l x r)
    → v ≡ x
    → ((s : ℤ) → (c : Cut) × (cut s ≡ some c) × Deleted r s c)
    → (c : Cut) × (delete_here a l x r cut ≡ some c) × Deleted (node a l x r) v c
unfolding mem uses frees
delete_here-Deleted a empty x r v cut b same ih = (
  (r, a ∷ []),
  refl,
  record {
    ordered = b.1;
    members = λ u. ground (arith, b.3 u, eq_of_==ℤ u x);
    nodes = λ q. omega arith;
  },
)
delete_here-Deleted a (node p l y r') x empty v cut b same ih = (
  (node p l y r', a ∷ []),
  refl,
  record {
    ordered = b.0;
    members = λ u. left_members (node p l y r') u (b.2 u);
    nodes = λ q. omega arith;
  },
)
  where
    left_members :
        (t : Tree) (u : ℤ)
        → (mem u t ≡ true → u <ℤ x)
        → mem u t ≡ (((u ==ℤ x) || (mem u t || false)) && not (u ==ℤ v))
    left_members t u lower = ground (arith, eq_of_==ℤ u x)
delete_here-Deleted a (node p l y r') x (node q l' z r) v cut b same ih =
    let (s, found, least) = min-IsLeast q l' z r (b.1) in
    let ((r'', freed), run, d) = ih s in
    (
      (node a (node p l y r') s r'', freed),
      rw (found, run),
      delete_both a (node p l y r') x (node q l' z r) v b s r'' freed same least d,
    )

-- `bst_delete` of a search tree follows no null pointer; it leaves a search tree with the values of
-- the old one less the value, and every node is either in the new tree or freed, and not both.
pub delete-Deleted :
    (t : Tree) (v : ℤ) → IsBst t → (c : Cut) × (delete t v ≡ some c) × Deleted t v c
unfolding delete
delete-Deleted empty v b = (
  (empty, []),
  refl,
  unfold mem uses frees in record { ordered = tt; members = λ u. refl; nodes = λ q. refl },
)
delete-Deleted (node a l x r) v b = elim (Bool-cases (ltb_ℤ v x)) [
  | inl lower ↦
      let ((l', freed), run, d) = delete-Deleted l v (b.0) in
      ((node a l' x r, freed), rw (lower, run), delete_left a l x r v b l' freed (ground arith) d)
  | inr not_lower ↦ elim (Bool-cases (ltb_ℤ x v)) [
    | inl higher ↦
        let ((r', freed), run, d) = delete-Deleted r v (b.1) in
        (
          (node a l x r', freed),
          rw (not_lower, higher, run),
          delete_right a l x r v b r' freed (ground arith) d,
        )
    | inr not_higher ↦
        let same : v ≡ x = ground (arith, eq_of_==ℤ v x) in
        let (c, run, d) =
          delete_here-Deleted a l x r v (λ s. delete r s) b same (λ s. delete-Deleted r s (b.1)) in
        (c, rw (not_lower, not_higher) run, d)
  ]
]

-- `bst_delete` of a value that the tree does not hold changes nothing and frees nothing.
pub delete_missing : (t : Tree) (v : ℤ) → mem v t ≡ false → delete t v ≡ some (t, [])
unfolding delete mem
delete_missing empty v m = refl
delete_missing (node a l x r) v m = ground (arith, delete_missing l v, delete_missing r v)
