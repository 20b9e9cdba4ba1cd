-- ===== src/HashTable/Put.antt =====
-- `hmap_put`, `hmap_delete` and `hmap_contains`: the table as a map from keys to values.
use c_programming.Prelude.{
  ℕ, ◌+◌, ◌-◌, ◌*◌, ◌≤◌, ◌≡◌, refl, Bool, true, false, none, some, [], if◌then◌else◌, arith, ◌∙◌,
  Bool-cases, Option-cases, inl, inr,
}
use c_programming.Prelude.Int.{ℤ}
use c_programming.HashTable.{
  Key, str_eq, Chain, HashMap, bucket_index, update, assign, unlink, get, put, delete, prepend,
  rehash, is_loaded, contains,
}
use c_programming.HashTable.Chain.{
  has, has-find, is_some, eq_of_str_eq, find-assign, has-assign, assign-Distinct, length-assign,
  find-unlink, has_of_has-unlink, unlink-Distinct, length-unlink,
}
use c_programming.HashTable.Table.{IsValid, total-update, bucket_index-lt, update-Distinct}
use c_programming.HashTable.Rehash.{prepend-IsValid, get-prepend, rehash-Rehashed}

-- At most three quarters of the capacity.
abbrev pub IsLight : HashMap → Type 0
IsLight m = 4 * m.count ≤ 3 * m.capacity

-- A write of `value` at `key`: the table is valid and light, and reads as before elsewhere.
pub record Written (m : HashMap) (key : Key) (value : ℤ) (m' : HashMap) : Type 0 where
  pub valid : IsValid m'
  pub light : IsLight m'
  pub reads : (q : Key) → get m' q ≡ (if str_eq key q then some value else get m q)
  pub count : m'.count ≡ m.count + (if is_some (get m key) then 0 else 1)

-- The three branches of the code.
abbrev bucket : HashMap → Key → Chain
bucket m key = m.buckets (bucket_index key m.capacity)

abbrev with_bucket : HashMap → Key → Chain → ℕ → HashMap
with_bucket m key c n = record m {
  buckets = update m.buckets (bucket_index key m.capacity) c;
  count = n;
}

put_found :
    (m : HashMap) (key : Key) (value old : ℤ)
    → get m key ≡ some old
    → put m key value ≡ with_bucket m key (assign key value (bucket m key)) m.count
unfolding get put
put_found m key value old found = rw (found, put)

put_missed :
    (m : HashMap) (key : Key) (value : ℤ)
    → get m key ≡ none
    → put m key value ≡ prepend (if is_loaded m then rehash m else m) key value
unfolding get put
put_missed m key value absent = rw (absent, put)

delete_found :
    (m : HashMap) (key : Key) (old : ℤ)
    → get m key ≡ some old
    → delete m key ≡ (true, with_bucket m key (unlink key (bucket m key)) (m.count - 1))
unfolding get delete
delete_found m key old found = rw (found, delete)

delete_missed : (m : HashMap) (key : Key) → get m key ≡ none → delete m key ≡ (false, m)
unfolding get delete
delete_missed m key absent = rw (absent, delete)

put-present :
    (m : HashMap) (key : Key) (value old : ℤ)
    → IsValid m
    → IsLight m
    → get m key ≡ some old
    → Written m key value (put m key value)
unfolding update get
put-present m key value old v light found =
    let idx = bucket_index key m.capacity in
    let c = m.buckets idx in
    let there : has key c ≡ true = ground (arith, has-find key c) in
    rw (put_found m key value old found) record {
      valid = record {
        positive = v.positive;
        placed = λ i q h. ground (arith, v.placed i q, has-assign key q value c);
        distinct = λ i.
            update-Distinct m.buckets idx (assign key value c) i (v.distinct i)
              (assign-Distinct key value c (v.distinct idx));
        counted = ground (
          arith,
          v.counted,
          length-assign key value c,
          total-update m.buckets idx (assign key value c) m.capacity,
        );
      };
      light = light;
      reads = λ q. ground (arith, find-assign key q value c there, eq_of_str_eq key q);
      count = ground (arith, found);
    }

count-prepend :
    (m : HashMap) (key : Key) (value : ℤ)
    → ((prepend m key value).count ≡ m.count + 1) × ((prepend m key value).capacity ≡ m.capacity)
unfolding prepend
count-prepend m key value = (refl, refl)

put-absent :
    (m : HashMap) (key : Key) (value : ℤ)
    → IsValid m
    → IsLight m
    → get m key ≡ none
    → Written m key value (put m key value)
put-absent m key value v light absent =
    rw (put_missed m key value absent) (elim (Bool-cases (is_loaded m)) [
      | inl full ↦
          let r = rehash-Rehashed m v in
          let missing = r.reads key ∙ absent in
          rw full record {
            valid = prepend-IsValid (rehash m) key value r.valid missing;
            light = ground (arith, light, count-prepend (rehash m) key value, r.count, r.capacity);
            reads = λ q. ground (arith, get-prepend (rehash m) key q value, r.reads q);
            count = ground (arith, count-prepend (rehash m) key value, r.count, absent);
          }
      | inr room ↦ rw room record {
        valid = prepend-IsValid m key value v absent;
        light = ground (arith, count-prepend m key value, room);
        reads = λ q. get-prepend m key q value;
        count = ground (arith, count-prepend m key value, absent);
      }
    ])

-- `hmap_put` of a valid table that is at most three quarters full: the key has the value, all other
-- keys read as before, the count grows by one exactly for a new key, and the table is valid and at
-- most three quarters full again.
pub put-Written :
    (m : HashMap) (key : Key) (value : ℤ)
    → IsValid m
    → IsLight m
    → Written m key value (put m key value)
put-Written m key value v light = elim (Option-cases (get m key)) [
  | inl absent ↦ put-absent m key value v light absent
  | inr (old, found) ↦ put-present m key value old v light found
]

-- What a deletion of `key` leaves, and whether it found the key.
pub record Erased (m : HashMap) (key : Key) (r : Bool × HashMap) : Type 0 where
  pub valid : IsValid (r.1)
  pub light : IsLight (r.1)
  pub found : r.0 ≡ is_some (get m key)
  pub reads : (q : Key) → get (r.1) q ≡ (if str_eq key q then none else get m q)
  pub count : (r.1).count + (if is_some (get m key) then 1 else 0) ≡ m.count

delete-present :
    (m : HashMap) (key : Key) (old : ℤ)
    → IsValid m
    → IsLight m
    → get m key ≡ some old
    → Erased m key (delete m key)
unfolding update get
delete-present m key old v light found =
    let idx = bucket_index key m.capacity in
    let c = m.buckets idx in
    let there : has key c ≡ true = ground (arith, has-find key c) in
    let filled : m.count - 1 + 1 ≡ m.count = ground (
      arith,
      v.counted,
      length-unlink key c there,
      bucket_index-lt key m.capacity v.positive,
      total-update m.buckets idx [] m.capacity,
    ) in
    rw (delete_found m key old found) record {
      valid = record {
        positive = v.positive;
        placed = λ i q h. ground (arith, v.placed i q, has_of_has-unlink key q c);
        distinct = λ i.
            update-Distinct m.buckets idx (unlink key c) i (v.distinct i)
              (unlink-Distinct key c (v.distinct idx));
        counted = ground (
          arith,
          v.counted,
          length-unlink key c there,
          filled,
          bucket_index-lt key m.capacity v.positive,
          total-update m.buckets idx (unlink key c) m.capacity,
        );
      };
      light = omega (arith, light, filled);
      found = rw found;
      reads = λ q. ground (arith, find-unlink key q c (v.distinct idx), eq_of_str_eq key q);
      count = rw found filled;
    }

-- `hmap_delete` of a valid table tells whether the key was there; the key is absent afterwards, all
-- other keys read as before, the count falls by one exactly for a key that was there, and the table
-- stays valid and at most three quarters full.
pub delete-Erased : (m : HashMap) (key : Key) → IsValid m → IsLight m → Erased m key (delete m key)
delete-Erased m key v light = elim (Option-cases (get m key)) [
  | inl absent ↦ rw (delete_missed m key absent) record {
    valid = v;
    light = light;
    found = rw absent;
    reads = λ q. ground (arith, absent, eq_of_str_eq key q);
    count = ground (arith, absent);
  }
  | inr (old, found) ↦ delete-present m key old v light found
]

-- `hmap_contains` tells whether `hmap_get` finds a value.
pub contains-get : (m : HashMap) (key : Key) → contains m key ≡ is_some (get m key)
unfolding contains
contains-get m key = ground arith
