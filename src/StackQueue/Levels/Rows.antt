-- ===== src/StackQueue/Levels/Rows.antt =====
-- The rows of a complete binary tree, and the arithmetic of the nodes in the queue of `bfs_order`.
use c_programming.Prelude.{
  ℕ, zero, suc, ◌+◌, ◌-◌, ◌*◌, ◌≤◌, ◌<◌, ◌≡◌, refl, sym, ◌∙◌, true, false, List, [], ◌∷◌, ◌++◌,
  ◌==◌, ◌&&◌, not, arith, if◌then◌else◌, leb, subst,
}
use c_programming.Prelude.Int.{ℤ, pos, negsuc, leb_ℤ}
use c_programming.Nodes.{int_max}
use c_programming.StackQueue.Levels.{Item, level, number}

-- `k` numbers from `v` on.
abbrev pub count_up : ℕ → ℕ → List Item
count_up v zero = []
count_up v (suc k) = number (pos v) ∷ count_up (v + 1) k

-- The size of the row that starts at node `b` in a tree of `m` nodes: as long as its number, or what
-- is left.
abbrev pub row_size : ℕ → ℕ → ℕ
row_size m b = if leb (2 * b) (m + 1) then b else m + 1 - b

-- The rows from level `l` on, each under its title; row `l` starts at node `b`, which is 2 ^ l.
abbrev pub rows : ℕ → ℕ → ℕ → ℕ → List Item
rows zero m b l = []
rows (suc f) m b l =
    let rest = rows f m (2 * b) (l + 1) in
    if leb b m then level l ∷ (count_up b (row_size m b) ++ rest) else []

-- The last node in the queue when `v` comes out of it: the children of the nodes before `v` are in.
abbrev pub top : ℕ → ℕ → ℕ
top m v = if leb (2 * v) (m + 1) then 2 * v - 1 else m

-- The nodes of the tree: the root is there for every `n`.
abbrev pub tree_size : ℤ → ℕ
tree_size (pos n) = if leb n 1 then 1 else n
tree_size (negsuc n) = 1

-- One or two children of `v` are the next numbers after `top m v`.
module _ (m v k : ℕ) (from : 1 ≤ v) (inside : v ≤ m) (e : top m v ≡ v + k) where
  abbrev pub with_left : ℕ
  with_left = if leb (2 * v) m then suc k else k

  pub left_next : leb (2 * v) m ≡ true → 2 * v ≡ v + 1 + k
  left_next i = ground arith

  pub right_next : leb (2 * v + 1) m ≡ true → 2 * v + 1 ≡ v + 1 + with_left
  right_next i = ground arith

  pub both_next :
      (if leb (2 * v + 1) m then suc with_left else with_left) ≡ suc (top m (v + 1)) - (v + 1)
  both_next = ground arith

  pub near : (k < v + 1) × (with_left < v + 1)
  near = (ground arith, ground arith)

  pub few : 2 * m + 1 ≤ int_max → (k < int_max) × (with_left < int_max)
  few small = (ground arith, ground arith)

pub top_above : (m v : ℕ) → v ≤ m → v + 1 ≤ suc (top m (v + 1))
top_above m v inside = ground arith

pub rows_end : (f m b l : ℕ) → m < b → rows f m b l ≡ []
rows_end zero m b l small = refl
rows_end (suc f) m b l small = let over : leb b m ≡ false = ground arith in rw over refl

rows_next :
    (f m b l : ℕ)
    → b ≤ m
    → m < b + f
    → rows f m b l ≡ level l ∷ (count_up b (row_size m b) ++ rows (f - 1) m (2 * b) (l + 1))
rows_next zero m b l inside fuel = absurd (omega arith)
rows_next (suc f) m b l inside fuel =
    let here : leb b m ≡ true = ground arith in
    let e : suc f - 1 ≡ f = omega arith in rw (here, e) refl

pub shown_next :
    (f m b l v size : ℕ) (out : List Item)
    → v ≡ b
    → size ≡ row_size m b
    → b ≤ m
    → m < b + f
    → out ≡ count_up v (size - 0) ++ rows (f - 1) m (2 * b) (l + 1)
    → level l ∷ out ≡ rows f m b l
shown_next f m b l v size out at row inside fuel shown =
    let e : size - 0 ≡ row_size m b = omega (arith, row) in
    rw (shown, e, at, rows_next f m b l inside fuel) refl

-- Where node `v` stands in its row of `size` nodes from `b` on.
module _ (m v b printed size : ℕ) (at : v ≡ b + printed) (row : size ≡ row_size m b) where
  pub row_over : v ≡ m + 1 → printed ≤ size → (size - printed ≡ 0) × (m < 2 * b)
  row_over e low = (ground arith, ground arith)

  pub row_ends : v < m → printed + 1 ≡ size → v + 1 ≡ 2 * b
  row_ends inside e = ground arith

  pub next_row : v < m → v + 1 ≡ 2 * b → suc (top m (v + 1)) - (v + 1) ≡ row_size m (2 * b)
  next_row inside e = ground arith

pub top_of :
    (m v : ℕ)
    → v ≤ m
    → 1 ≤ v
    → (1 ≤ suc (top m v) - v) × (m ≤ v → suc (top m (v + 1)) - (v + 1) ≡ 0)
top_of m v inside from = (ground arith, λ last. ground arith)

pub top_over : (m v : ℕ) → v ≡ m + 1 → suc (top m v) - v ≡ 0
top_over m v e = ground arith

more_wait : (m v : ℕ) → v < m → 1 ≤ suc (top m (v + 1)) - (v + 1)
more_wait m v inside = ground arith

pub not_empty : (size k : ℕ) → size ≡ k → 1 ≤ k → (size == 0) ≡ false
not_empty size k e some_wait = ground arith

-- Whether the row ends with node `v`, after which `wait` nodes are in the queue.
module _ (m v printed size wait : ℕ) (inside : v ≤ m) (from : 1 ≤ v)
    (e : wait ≡ suc (top m (v + 1)) - (v + 1)) where
  pub at_end :
      ((printed + 1 == size) && not (wait == 0)) ≡ true
      → (v < m) × (printed + 1 ≡ size) × (1 ≤ wait)
  at_end ends =
      let last = (top_of m v inside from).1 in
      let waits : 1 ≤ wait = ground (arith, ends) in
      (inner (λ l. e ∙ last l) waits, ground (arith, ends), waits)
    where
      inner : (m ≤ v → wait ≡ 0) → 1 ≤ wait → v < m
      inner last waits = ground (arith, last)

  pub not_at_end :
      ((printed + 1 == size) && not (wait == 0)) ≡ false
      → v < m
      → printed < size
      → printed + 1 < size
  not_at_end on inner low =
      let waits : 1 ≤ wait = subst (λ w. 1 ≤ w) (sym e) (more_wait m v inner) in ground (arith, on)

pub in_tree : (n : ℤ) (c : ℕ) → 2 ≤ c → leb_ℤ (pos c) n ≡ leb c (tree_size n)
in_tree (pos n) c two = ground arith
in_tree (negsuc n) c two = ground arith

pub has_root : (n : ℤ) → 1 ≤ tree_size n
has_root (pos n) = ground arith
has_root (negsuc n) = omega arith

pub from_root : (m : ℕ) → 1 ≤ m → (top m 1 ≡ 1) × (1 ≡ row_size m 1)
from_root m positive = (ground arith, ground arith)
