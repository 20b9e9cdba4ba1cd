-- ===== src/HashTable/Table.antt =====
-- The invariant of the table, and what it says of the entries of all buckets.
use c_programming.Prelude.{
  ℕ, zero, suc, ◌+◌, ◌<◌, ◌≡◌, refl, true, false, none, [], ◌∷◌, ◌++◌, if◌then◌else◌, ◌==◌, ltb,
  arith, length, length-append, Bool-cases, inl, inr,
}
use c_programming.HashTable.{Key, Chain, HashMap, bucket_index, update, find, gather, get, create}
use c_programming.HashTable.Chain.{Distinct, has, has-find, has-append, find-append, str_eq_refl}

-- The index of a bucket lies in the array.
pub bucket_index-lt :
    (key : Key) (capacity : ℕ) → 0 < capacity → bucket_index key capacity < capacity
unfolding bucket_index
bucket_index-lt key capacity h = omega arith

-- Every entry stands in the bucket of its key.
abbrev pub IsPlaced : (ℕ → Chain) → ℕ → Type 0
IsPlaced b capacity = (i : ℕ) (q : Key) → has q (b i) ≡ true → i ≡ bucket_index q capacity

-- The number of entries in the first `n` buckets.
unfoldable pub total : (ℕ → Chain) → ℕ → ℕ
total b zero = 0
total b (suc n) = total b n + length (b n)

pub record IsValid (m : HashMap) : Type 0 where
  pub positive : 0 < m.capacity
  pub placed : IsPlaced m.buckets m.capacity
  pub distinct : (i : ℕ) → Distinct (m.buckets i)
  pub counted : m.count ≡ total m.buckets m.capacity

pub length-gather : (b : ℕ → Chain) (n : ℕ) → length (gather b n) ≡ total b n
unfolding gather total
length-gather b zero = refl
length-gather b (suc n) = omega (arith, length-append (gather b n) (b n), length-gather b n)

pub total-update :
    (b : ℕ → Chain) (i : ℕ) (c : Chain) (n : ℕ)
    → total (update b i c) n + (if ltb i n then length (b i) else 0)
      ≡ total b n + (if ltb i n then length c else 0)
unfolding total update
total-update b i c zero = ground arith
total-update b i c (suc n) = ground (arith, total-update b i c n)

pub update-Distinct :
    (b : ℕ → Chain) (i : ℕ) (c : Chain) (j : ℕ)
    → Distinct (b j)
    → Distinct c
    → Distinct (update b i c j)
unfolding update
update-Distinct b i c j d e = elim (Bool-cases (j == i)) [
  | inl here ↦ rw here e
  | inr other ↦ rw other d
]

-- An entry of the first `n` buckets is one of a key whose bucket is among them.
pub has-gather :
    (b : ℕ → Chain) (capacity : ℕ) (q : Key)
    → IsPlaced b capacity
    → (n : ℕ) → has q (gather b n) ≡ true
    → bucket_index q capacity < n
unfolding gather has
has-gather b capacity q placed zero h = cc
has-gather b capacity q placed (suc n) h =
    ground (arith, has-gather b capacity q placed n, has-append q (gather b n) (b n), placed n q)

append-Distinct :
    (xs ys : Chain)
    → Distinct xs
    → Distinct ys
    → ((q : Key) → has q xs ≡ true → has q ys ≡ false)
    → Distinct (xs ++ ys)
unfolding has
append-Distinct [] ys d e apart = e
append-Distinct ((k, v) ∷ xs) ys d e apart = (
  ground (arith, has-append k xs ys, apart k, str_eq_refl k, d.0),
  append-Distinct xs ys (d.1) e (λ q h. apart q (ground (arith, h))),
)

pub gather-Distinct :
    (b : ℕ → Chain) (capacity : ℕ)
    → IsPlaced b capacity
    → ((i : ℕ) → Distinct (b i))
    → (n : ℕ) → Distinct (gather b n)
unfolding gather
gather-Distinct b capacity placed distinct zero = tt
gather-Distinct b capacity placed distinct (suc n) =
    append-Distinct (gather b n) (b n) (gather-Distinct b capacity placed distinct n) (distinct n)
      (λ q h. ground (arith, has-gather b capacity q placed n h, placed n q))

find-gather_below :
    (b : ℕ → Chain) (capacity : ℕ) (q : Key)
    → IsPlaced b capacity
    → (n : ℕ)
    → find q (gather b n)
      ≡ (if ltb (bucket_index q capacity) n then find q (b (bucket_index q capacity)) else none)
unfolding gather find
find-gather_below b capacity q placed zero = ground arith
find-gather_below b capacity q placed (suc n) = ground (
  arith,
  find-gather_below b capacity q placed n,
  find-append q (gather b n) (b n),
  placed n q,
  has-find q (b n),
)

-- `hmap_get` finds the value that a search through the entries of all buckets finds.
pub get-gather :
    (m : HashMap) (q : Key) → IsValid m → get m q ≡ find q (gather m.buckets m.capacity)
unfolding get
get-gather m q v = ground (
  arith,
  find-gather_below m.buckets m.capacity q v.placed m.capacity,
  bucket_index-lt q m.capacity v.positive,
)

-- The empty table is valid.
pub create-IsValid : IsValid create
unfolding create has total
create-IsValid = record {
  positive = omega arith;
  placed = λ i q h. cc;
  distinct = λ i. tt;
  counted = refl;
}
