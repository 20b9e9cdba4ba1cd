-- ===== src/Nodes/Chain.antt =====
-- Chains of nodes linked by `next`, and what writes leave of them.
use c_programming.Prelude.{
  ◌≡◌, refl, ◌≢◌, Bool, true, false, ◌||◌, Option, none, some, List, [], ◌∷◌, ◌++◌, arith, ◌==◌, ap,
}
use c_programming.Prelude.Int.{ℤ}
use c_programming.Nodes.{Ptr, null, Node, node, Heap, put, load, set_next, free, ok}

-- The address and the value of each node, in order.
abbrev pub Cells : Type 0
Cells = List (Ptr × ℤ)

abbrev pub values : Cells → List ℤ
values [] = []
values ((_, v) ∷ xs) = v ∷ values xs

abbrev pub has : Ptr → Cells → Bool
has a [] = false
has a ((p, _) ∷ xs) = (a == p) || has a xs

-- The address of the first of the nodes `xs`, or of what follows them.
abbrev pub first : Cells → Ptr → Ptr
first [] stop = stop
first ((p, _) ∷ xs) stop = p

-- The nodes `xs` are live, distinct and linked in this order, and the last leads to `stop`.
abbrev pub Chain : Heap → Cells → Ptr → Type 0
Chain h [] stop = Unit {0}
Chain h ((p, v) ∷ xs) stop =
    (p ≢ null) × (h p ≡ some (node v (first xs stop))) × (has p xs ≡ false) × Chain h xs stop

abbrev pub Disjoint : Cells → Cells → Type 0
Disjoint xs ys = (a : Ptr) → has a xs ≡ true → has a ys ≡ false

pub has-append : (a : Ptr) (xs ys : Cells) → has a (xs ++ ys) ≡ (has a xs || has a ys)
has-append a [] ys = refl
has-append a ((p, v) ∷ xs) ys = ground (arith, has-append a xs ys)

pub first-append : (xs ys : Cells) (stop : Ptr) → first (xs ++ ys) stop ≡ first xs (first ys stop)
first-append [] ys stop = refl
first-append ((p, v) ∷ xs) ys stop = refl

pub values-append : (xs ys : Cells) → values (xs ++ ys) ≡ values xs ++ values ys
values-append [] ys = refl
values-append ((p, v) ∷ xs) ys = ap (λ l. v ∷ l) (values-append xs ys)

-- A chain that ends in null and starts at null is empty.
pub first-eq-null : (h : Heap) (xs : Cells) → Chain h xs null → first xs null ≡ null → xs ≡ []
first-eq-null h [] c e = refl
first-eq-null h ((p, v) ∷ xs) c e = absurd (c.0 e)

-- A chain is a chain in every heap that agrees on its nodes.
pub Chain-frame :
    (h g : Heap) (xs : Cells) (stop : Ptr)
    → Chain h xs stop
    → ((a : Ptr) → has a xs ≡ true → g a ≡ h a)
    → Chain g xs stop
Chain-frame h g [] stop c same = tt
Chain-frame h g ((p, v) ∷ xs) stop c same =
    (c.0, ground (arith, same p), c.2, Chain-frame h g xs stop c.3 (λ a i. same a (ground arith)))

pub Chain-put :
    (h : Heap) (p : Ptr) (c : Option Node) (xs : Cells) (stop : Ptr)
    → Chain h xs stop
    → has p xs ≡ false
    → Chain (put h p c) xs stop
unfolding put
Chain-put h p c xs stop k out = Chain-frame h (put h p c) xs stop k (λ a i. ground arith)

pub has_of_none :
    (h : Heap) (a : Ptr) (xs : Cells) (stop : Ptr) → Chain h xs stop → h a ≡ none → has a xs ≡ false
has_of_none h a [] stop c unused = refl
has_of_none h a ((p, v) ∷ xs) stop c unused = ground (arith, has_of_none h a xs stop c.3)

pub Chain-append :
    (h : Heap) (xs ys : Cells) (stop : Ptr)
    → Chain h xs (first ys stop)
    → Chain h ys stop
    → Disjoint xs ys
    → Chain h (xs ++ ys) stop
Chain-append h [] ys stop c d apart = d
Chain-append h ((p, v) ∷ xs) ys stop c d apart = (
  c.0,
  ground (arith, first-append xs ys stop),
  ground (arith, has-append p xs ys, apart p),
  Chain-append h xs ys stop c.3 d (λ a i. apart a (ground arith)),
)

-- The two parts of a chain.
pub Chain-split :
    (h : Heap) (xs ys : Cells) (stop : Ptr)
    → Chain h (xs ++ ys) stop
    → Chain h xs (first ys stop) × Chain h ys stop × Disjoint xs ys
Chain-split h [] ys stop c = (tt, c, λ a i. ground arith)
Chain-split h ((p, v) ∷ xs) ys stop c =
    let (front, back, apart) = Chain-split h xs ys stop c.3 in
    (
      (c.0, ground (arith, first-append xs ys stop), ground (arith, has-append p xs ys), front),
      back,
      λ a i. ground (arith, has-append p xs ys, apart a),
    )

module _ (h : Heap) {p : Ptr} {n : Node} (live : p ≢ null) (holds : h p ≡ some n) where
  pub load-ok : load p h ≡ ok n h
  unfolding load
  load-ok = ground arith

  pub set_next-ok : (q : Ptr) → set_next p q h ≡ ok tt (put h p (some (node n.value q)))
  unfolding set_next
  set_next-ok q = ground (arith, load-ok)

  pub free-ok : free p h ≡ ok tt (put h p none)
  unfolding free
  free-ok = ground (arith, load-ok)
