-- ===== src/HashTable/Rehash.antt =====
-- `rehash` keeps every entry.
use c_programming.Prelude.{
  ℕ, zero, suc, ◌+◌, ◌*◌, ◌<◌, ◌≡◌, refl, true, none, some, [], ◌∷◌, ◌++◌, if◌then◌else◌, arith,
  length, sym, ◌∙◌, ap,
}
use c_programming.Prelude.Int.{ℤ}
use c_programming.HashTable.{
  Key, str_eq, Chain, HashMap, bucket_index, update, find, gather, get, prepend, move, move_buckets,
  rehash,
}
use c_programming.HashTable.Chain.{Distinct, has, has-find, or_else, eq_of_str_eq, str_eq_refl}
use c_programming.HashTable.Table.{
  IsValid, update-Distinct, gather-Distinct, total, total-update, bucket_index-lt, length-gather,
  get-gather,
}

-- A new entry at the head of its bucket.
pub prepend-IsValid :
    (m : HashMap) (key : Key) (value : ℤ)
    → IsValid m
    → get m key ≡ none
    → IsValid (prepend m key value)
unfolding prepend update has get
prepend-IsValid m key value v absent =
    let idx = bucket_index key m.capacity in
    record {
      positive = v.positive;
      placed = λ i q h. ground (arith, v.placed i q, eq_of_str_eq key q);
      distinct = λ i.
          update-Distinct m.buckets idx _ i (v.distinct i)
            (ground (arith, has-find key (m.buckets idx), absent), v.distinct idx);
      counted = ground (
        arith,
        v.counted,
        bucket_index-lt key m.capacity v.positive,
        total-update m.buckets idx ((key, value) ∷ m.buckets idx) m.capacity,
      );
    }

pub get-prepend :
    (m : HashMap) (key q : Key) (value : ℤ)
    → get (prepend m key value) q ≡ (if str_eq key q then some value else get m q)
unfolding prepend update get find
get-prepend m key q value = ground (arith, eq_of_str_eq key q)

-- What the move of the entries `es` makes of the table `m`.
record Moved (es : Chain) (m : HashMap) (m' : HashMap) : Type 0 where
  valid : IsValid m'
  reads : (q : Key) → get m' q ≡ or_else (find q es) (get m q)
  capacity : m'.capacity ≡ m.capacity
  count : m'.count ≡ m.count + length es

move-Moved :
    (es : Chain) (m : HashMap)
    → IsValid m
    → Distinct es
    → ((q : Key) → has q es ≡ true → get m q ≡ none)
    → Moved es m (move es m)
unfolding move find has prepend
move-Moved [] m v d apart = record {
  valid = v;
  reads = λ q. refl;
  capacity = refl;
  count = omega arith;
}
move-Moved ((k, x) ∷ es) m v d apart =
    let m₁ = prepend m k x in
    let v₁ = prepend-IsValid m k x v (apart k (ground (arith, str_eq_refl k))) in
    let rest =
      move-Moved es m₁ v₁ (d.1)
        (λ q h. ground (arith, get-prepend m k q x, apart q, eq_of_str_eq k q, d.0)) in
    record {
      valid = rest.valid;
      reads = λ q.
          ground (arith, rest.reads q, get-prepend m k q x, has-find q es, eq_of_str_eq k q, d.0);
      capacity = rest.capacity;
      count = omega (arith, rest.count);
    }

move-append : (xs ys : Chain) (m : HashMap) → move (xs ++ ys) m ≡ move ys (move xs m)
unfolding move
move-append [] ys m = refl
move-append ((k, v) ∷ xs) ys m = move-append xs ys _

move_buckets-gather :
    (old : ℕ → Chain) (n : ℕ) (m : HashMap) → move_buckets old n m ≡ move (gather old n) m
unfolding move_buckets gather move
move_buckets-gather old zero m = refl
move_buckets-gather old (suc n) m =
    ap (move (old n)) (move_buckets-gather old n m) ∙ sym (move-append (gather old n) (old n) m)

-- What `rehash` makes of a table: it is valid, twice as wide, and holds what the old one held.
pub record Rehashed (m : HashMap) (m' : HashMap) : Type 0 where
  pub valid : IsValid m'
  pub reads : (q : Key) → get m' q ≡ get m q
  pub capacity : m'.capacity ≡ m.capacity * 2
  pub count : m'.count ≡ m.count

total-empty : (n : ℕ) → total (λ _. []) n ≡ 0
unfolding total
total-empty zero = refl
total-empty (suc n) = omega (arith, total-empty n)

get-empty : (n : ℕ) (q : Key) → get (record { buckets = λ _. []; capacity = n; count = 0 }) q ≡ none
unfolding get find
get-empty n q = refl

empty-IsValid : (n : ℕ) → 0 < n → IsValid (record { buckets = λ _. []; capacity = n; count = 0 })
unfolding has
empty-IsValid n h = record {
  positive = h;
  placed = λ i q e. cc;
  distinct = λ i. tt;
  counted = sym (total-empty n);
}

-- `rehash` of a valid table doubles its capacity and keeps its count and every value.
pub rehash-Rehashed : (m : HashMap) → IsValid m → Rehashed m (rehash m)
unfolding rehash
rehash-Rehashed m v =
    let wide : HashMap = record { buckets = λ _. []; capacity = m.capacity * 2; count = 0 } in
    let done =
      move-Moved (gather m.buckets m.capacity) wide
        (empty-IsValid (m.capacity * 2) (omega (arith, v.positive)))
        (gather-Distinct m.buckets m.capacity v.placed v.distinct m.capacity)
        (λ q h. get-empty (m.capacity * 2) q) in
    rw (move_buckets-gather m.buckets m.capacity wide) record {
      valid = done.valid;
      reads = λ q. ground (arith, done.reads q, get-empty (m.capacity * 2) q, get-gather m q v);
      capacity = done.capacity;
      count = omega (arith, done.count, length-gather m.buckets m.capacity, v.counted);
    }
