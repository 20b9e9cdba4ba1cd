-- ===== src/HashTable/Chain.antt =====
-- Keys and single chains.
use c_programming.Prelude.{
  ◌+◌, ◌≡◌, refl, Bool, true, false, Option, none, some, [], ◌∷◌, ◌++◌, ◌||◌, if◌then◌else◌, arith,
  length, ap, sym, Bool-cases, inl, inr,
}
use c_programming.Prelude.Int.{ℤ}
pub use c_programming.Prelude.Texts.{str_eq_refl, eq_of_str_eq}
use c_programming.HashTable.{Key, str_eq, Chain, find, assign, unlink}

-- The chain has an entry with the key.
unfoldable pub has : Key → Chain → Bool
has q [] = false
has q ((k, v) ∷ es) = str_eq k q || has q es

-- No key stands in the chain twice.
abbrev pub Distinct : Chain → Type 0
Distinct [] = Unit {0}
Distinct ((k, v) ∷ es) = (has k es ≡ false) × Distinct es

abbrev pub or_else : Option ℤ → Option ℤ → Option ℤ
or_else none y = y
or_else (some x) y = some x

abbrev pub is_some : Option ℤ → Bool
is_some none = false
is_some (some x) = true

pub has-find : (q : Key) (es : Chain) → has q es ≡ is_some (find q es)
unfolding has find
has-find q [] = refl
has-find q ((k, v) ∷ es) = ground (arith, has-find q es)

pub find-append : (q : Key) (xs ys : Chain) → find q (xs ++ ys) ≡ or_else (find q xs) (find q ys)
unfolding find
find-append q [] ys = refl
find-append q ((k, v) ∷ xs) ys = ground (arith, find-append q xs ys)

pub has-append : (q : Key) (xs ys : Chain) → has q (xs ++ ys) ≡ (has q xs || has q ys)
unfolding has
has-append q [] ys = refl
has-append q ((k, v) ∷ xs) ys = ground (arith, has-append q xs ys)

has_same : (k q : Key) (es : Chain) → str_eq k q ≡ true → has q es ≡ has k es
has_same k q es e = ap (λ a. has a es) (sym (eq_of_str_eq k q e))

module _ (key q : Key) where
  same_key : (k : Key) → str_eq k key ≡ true → str_eq k q ≡ str_eq key q
  same_key k e = ap (λ a. str_eq a q) (eq_of_str_eq k key e)

  pub find-assign :
      (value : ℤ) (es : Chain)
      → has key es ≡ true
      → find q (assign key value es) ≡ (if str_eq key q then some value else find q es)
  unfolding find assign has
  find-assign value [] h = cc
  find-assign value ((k, v) ∷ es) h =
      ground (arith, find-assign value es, same_key k, eq_of_str_eq key q, str_eq_refl key)

  pub has-assign : (value : ℤ) (es : Chain) → has q (assign key value es) ≡ has q es
  unfolding assign has
  has-assign value [] = refl
  has-assign value ((k, v) ∷ es) = ground (arith, has-assign value es)

  pub find-unlink :
      (es : Chain)
      → Distinct es
      → find q (unlink key es) ≡ (if str_eq key q then none else find q es)
  unfolding find unlink
  find-unlink [] d = ground arith
  find-unlink ((k, v) ∷ es) d = ground (
    arith,
    find-unlink es (d.1),
    same_key k,
    d.0,
    has_same k q es,
    has-find q es,
    eq_of_str_eq key q,
  )

  pub has_of_has-unlink : (es : Chain) → has q (unlink key es) ≡ true → has q es ≡ true
  unfolding unlink has
  has_of_has-unlink [] h = h
  has_of_has-unlink ((k, v) ∷ es) h = ground (arith, has_of_has-unlink es)

pub assign-Distinct :
    (key : Key) (value : ℤ) (es : Chain) → Distinct es → Distinct (assign key value es)
unfolding assign
assign-Distinct key value [] d = tt
assign-Distinct key value ((k, v) ∷ es) d = elim (Bool-cases (str_eq k key)) [
  | inl e ↦ rw e d
  | inr e ↦ rw e (ground (arith, has-assign key k value es), assign-Distinct key value es (d.1))
]

pub unlink-Distinct : (key : Key) (es : Chain) → Distinct es → Distinct (unlink key es)
unfolding unlink
unlink-Distinct key [] d = tt
unlink-Distinct key ((k, v) ∷ es) d = elim (Bool-cases (str_eq k key)) [
  | inl e ↦ rw e (d.1)
  | inr e ↦ rw e (ground (arith, has_of_has-unlink key k es), unlink-Distinct key es (d.1))
]

pub length-assign : (key : Key) (value : ℤ) (es : Chain) → length (assign key value es) ≡ length es
unfolding assign
length-assign key value [] = refl
length-assign key value ((k, v) ∷ es) = ground (arith, length-assign key value es)

pub length-unlink :
    (key : Key) (es : Chain) → has key es ≡ true → length (unlink key es) + 1 ≡ length es
unfolding unlink has
length-unlink key [] h = cc
length-unlink key ((k, v) ∷ es) h = ground (arith, length-unlink key es)
