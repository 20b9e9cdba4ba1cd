-- ===== src/HashTable.antt =====
-- The functions of exercises/18_hash_table/hash_table.c. A key is the bytes of a C string before
-- its end. The array of buckets is a function from the index, and a chain is the list of its
-- entries; only a chain's own bucket points into it.
pub mod Chain
pub mod Table
pub mod Rehash
pub mod Put
pub mod Refine
mod Main
mod Tests
use Prim.Native.Nat.{bit_xor}
use c_programming.Prelude.{
  ℕ, zero, suc, ◌+◌, ◌-◌, ◌*◌, ◌%◌, ◌^◌, Bool, true, false, Option, none, some, List, [], ◌∷◌, ◌++◌,
  if◌then◌else◌, ltb, ◌==◌, ◌&&◌,
}
use c_programming.Prelude.Int.{ℤ}
unfoldable pub use c_programming.Prelude.Texts.{str_eq}

abbrev pub Key : Type 0
Key = List ℕ

-- `Entry`, without its link
abbrev pub Entry : Type 0
Entry = Key × ℤ

abbrev pub Chain : Type 0
Chain = List Entry

pub record HashMap : Type 0 where
  pub buckets : ℕ → Chain
  pub capacity : ℕ
  pub count : ℕ

abbrev pub initial_capacity : ℕ
initial_capacity = 8

-- `h = h * 33 ^ c` on 64 bits, where the product comes first.
unfoldable pub hash_from : ℕ → Key → ℕ
hash_from h [] = h
hash_from h (c ∷ cs) = hash_from (bit_xor (h * 33 % 2 ^ 64) c) cs

unfoldable pub hash_djb2 : Key → ℕ
unfolding hash_from
hash_djb2 key = hash_from 5381 key

unfoldable pub bucket_index : Key → ℕ → ℕ
bucket_index key capacity = hash_djb2 key % capacity

-- A write to one place of an array.
unfoldable pub update : (ℕ → Chain) → ℕ → Chain → ℕ → Chain
update b i c j = if j == i then c else b j

unfoldable pub create : HashMap
create = record { buckets = λ _. []; capacity = initial_capacity; count = 0 }

-- The inner loop of `rehash`: each entry of a chain is put at the head of its new bucket.
unfoldable pub move : Chain → HashMap → HashMap
move [] m = m
move ((key, value) ∷ es) m =
    let idx = bucket_index key m.capacity in
    move es (record m {
      buckets = update m.buckets idx ((key, value) ∷ m.buckets idx);
      count = m.count + 1;
    })

-- Its outer loop, over the first `n` buckets in ascending order.
unfoldable pub move_buckets : (ℕ → Chain) → ℕ → HashMap → HashMap
move_buckets old zero m = m
move_buckets old (suc n) m = move (old n) (move_buckets old n m)

unfoldable pub rehash : HashMap → HashMap
rehash m =
    move_buckets m.buckets m.capacity
      (record { buckets = λ _. []; capacity = m.capacity * 2; count = 0 })

-- The walk along a chain: the value of the first entry with the key.
unfoldable pub find : Key → Chain → Option ℤ
find key [] = none
find key ((k, v) ∷ es) = if str_eq k key then some v else find key es

-- `cur->value = value` at that entry.
unfoldable pub assign : Key → ℤ → Chain → Chain
assign key value [] = []
assign key value ((k, v) ∷ es) =
    if str_eq k key then (k, value) ∷ es else (k, v) ∷ assign key value es

-- That entry is taken out.
unfoldable pub unlink : Key → Chain → Chain
unlink key [] = []
unlink key ((k, v) ∷ es) = if str_eq k key then es else (k, v) ∷ unlink key es

-- The test `(double)(count + 1) / capacity > 0.75`, which the rounding of the quotient cannot turn
-- for an `int` count and capacity.
abbrev pub is_loaded : HashMap → Bool
is_loaded m = ltb (3 * m.capacity) (4 * (m.count + 1))

-- The end of `hmap_put`.
unfoldable pub prepend : HashMap → Key → ℤ → HashMap
prepend m key value =
    let idx = bucket_index key m.capacity in
    record m { buckets = update m.buckets idx ((key, value) ∷ m.buckets idx); count = m.count + 1 }

unfoldable pub put : HashMap → Key → ℤ → HashMap
put m key value =
    let idx = bucket_index key m.capacity in
    elim (find key (m.buckets idx)) [
      | some _ ↦ record m { buckets = update m.buckets idx (assign key value (m.buckets idx)) }
      | none ↦ prepend (if is_loaded m then rehash m else m) key value
    ]

-- A hit returns 1 and writes the value out.
unfoldable pub get : HashMap → Key → Option ℤ
get m key = find key (m.buckets (bucket_index key m.capacity))

unfoldable pub delete : HashMap → Key → Bool × HashMap
delete m key =
    let idx = bucket_index key m.capacity in
    elim (find key (m.buckets idx)) [
      | some _ ↦ (
        true,
        record m {
          buckets = update m.buckets idx (unlink key (m.buckets idx));
          count = m.count - 1;
        },
      )
      | none ↦ (false, m)
    ]

unfoldable pub contains : HashMap → Key → Bool
contains m key = elim (get m key) [ some _ ↦ true | none ↦ false ]

-- The entries of the first `n` buckets, in the order in which the loops over the buckets meet them.
unfoldable pub gather : (ℕ → Chain) → ℕ → List Entry
gather b zero = []
gather b (suc n) = gather b n ++ b n

-- `hmap_free` frees every entry with its key, in this order, then the array and the map.
unfoldable pub destroy : HashMap → List Entry
destroy m = gather m.buckets m.capacity

-- The lines of `hmap_print` below the first: the index and the chain of each bucket in use.
unfoldable pub print_buckets : (ℕ → Chain) → ℕ → List (ℕ × Chain)
print_buckets b zero = []
print_buckets b (suc n) =
    let before = print_buckets b n in
    elim (b n) [ [] ↦ before | e ∷ es ↦ before ++ (n, e ∷ es) ∷ [] ]

-- The count, the capacity and the lines; the load is left out.
unfoldable pub print : HashMap → ℕ × ℕ × List (ℕ × Chain)
print m = (m.count, m.capacity, print_buckets m.buckets m.capacity)
