-- ===== src/Threads/Ring.antt =====
-- The bounded queue as a list.
use c_programming.Prelude.{
  ℕ, zero, suc, ◌+◌, ◌-◌, ◌%◌, ◌≤◌, ◌<◌, ◌≡◌, refl, true, none, some, List, [], ◌∷◌, ◌++◌,
  if◌then◌else◌, ◌==◌, arith, ap, ap₂, subst, sym, ◌∙◌, Bool-cases, inl, inr,
}
use c_programming.Threads.{BQueue, waits, returns, qcap, put_at, bq_push, bq_pop}

-- The `n` values from place `h` on.
unfoldable pub from : (ℕ → ℕ) → ℕ → ℕ → List ℕ
from d h zero = []
from d h (suc n) = d h ∷ from d ((h + 1) % qcap) n

abbrev pub contents : BQueue → List ℕ
contents q = from q.data_at q.head q.count

pub record IsRing (q : BQueue) : Type 0 where
  pub small : q.count ≤ qcap
  pub head_in : q.head < qcap
  pub tail_at : q.tail ≡ (q.head + q.count) % qcap

from-put_at :
    (d : ℕ → ℕ) (h n m t v : ℕ)
    → h < qcap
    → n ≤ m
    → m < qcap
    → t ≡ (h + m) % qcap
    → from (put_at d t v) h n ≡ from d h n
unfolding from put_at
from-put_at d h zero m t v a b c e = refl
from-put_at d h (suc n) m t v a b c e = ground (arith, from-put_at d ((h + 1) % qcap) n (m - 1) t v)

from-snoc :
    (d : ℕ → ℕ) (h n t v : ℕ)
    → h < qcap
    → n < qcap
    → t ≡ (h + n) % qcap
    → from (put_at d t v) h (suc n) ≡ from d h n ++ v ∷ []
unfolding from put_at
from-snoc d h zero t v a b e = ground arith
from-snoc d h (suc n) t v a b e =
    let same : put_at d t v h ≡ d h = ground arith in
    let rest = from-snoc d ((h + 1) % qcap) n t v (omega arith) (omega arith) (omega arith) in
    ap₂ (λ x l. x ∷ l) same rest

one_more : (n : ℕ) → suc n ≡ n + 1
one_more n = omega arith

-- What a call leaves that returns `r` in the queue `q'`.
pub record Pushed (q : BQueue) (val : ℕ) (size : ℕ) (q' : BQueue) : Type 0 where
  pub ring : IsRing q'
  pub listed : contents q' ≡ contents q ++ val ∷ []
  pub sized : size ≡ q'.count
  pub closed : q'.closed ≡ q.closed

returned : {A : Type 0} {a b : A} {q r : BQueue} → returns a q ≡ returns b r → (a ≡ b) × (q ≡ r)
returned e = (cc, cc)

-- `bq_push` returns exactly where the queue is not full, with one more value at the end of the queue
-- and its new size.
pub bq_push-Pushed :
    (q : BQueue) (val : ℕ)
    → IsRing q
    → if q.count == qcap
      then bq_push q val ≡ waits
      else (size : ℕ) × (q' : BQueue) × (bq_push q val ≡ returns size q') × Pushed q val size q'
unfolding bq_push
bq_push-Pushed q val r = elim (Bool-cases (q.count == qcap)) [
  | inl full ↦ rw full refl
  | inr room ↦ rw room (
    _,
    _,
    refl,
    record {
      ring = record {
        small = ground (arith, r.small);
        head_in = r.head_in;
        tail_at = ground (arith, r.tail_at, r.head_in);
      };
      listed =
          subst (λ m. from (put_at q.data_at q.tail val) q.head m ≡ contents q ++ val ∷ [])
            (one_more q.count)
            (from-snoc q.data_at q.head q.count q.tail val r.head_in (ground (arith, r.small))
              r.tail_at);
      sized = refl;
      closed = refl;
    },
  )
]

-- What a call leaves that returns the value `val`.
pub record Popped (q : BQueue) (val : ℕ) (q' : BQueue) : Type 0 where
  pub ring : IsRing q'
  pub listed : contents q ≡ val ∷ contents q'
  pub counted : q.count ≡ q'.count + 1
  pub closed : q'.closed ≡ q.closed

popped :
    (q : BQueue) (n : ℕ)
    → IsRing q
    → q.count ≡ suc n
    → Popped q (q.data_at q.head) (record q { head = (q.head + 1) % qcap; count = q.count - 1 })
unfolding from
popped q n r e = record {
  ring = record {
    small = omega (arith, r.small);
    head_in = omega arith;
    tail_at = omega (arith, r.tail_at, r.head_in);
  };
  listed = rw e (ap (λ m. q.data_at q.head ∷ from q.data_at ((q.head + 1) % qcap) m) (back n));
  counted = omega arith;
  closed = refl;
}
  where
    back : (n : ℕ) → n ≡ suc n - 1
    back n = omega arith

-- `bq_pop` waits exactly where the queue is empty and open, returns 0 and changes nothing where it is
-- empty and closed, and else takes off the first value.
pub bq_pop-Popped :
    (q : BQueue)
    → IsRing q
    → if q.count == 0
      then bq_pop q ≡ (if q.closed then returns none q else waits)
      else (val : ℕ) × (q' : BQueue) × (bq_pop q ≡ returns (some val) q') × Popped q val q'
unfolding bq_pop
bq_pop-Popped q r = elim (Bool-cases (q.count == 0)) [
  | inl empty ↦ rw empty (ground arith)
  | inr filled ↦ rw filled (_, _, refl, popped q (q.count - 1) r (ground arith))
]

-- The same, read from what a call has returned.
pub push_returned :
    (q : BQueue) (val size : ℕ) (q' : BQueue)
    → IsRing q
    → bq_push q val ≡ returns size q'
    → Pushed q val size q'
push_returned q val size q' r e = elim (Bool-cases (q.count == qcap)) [
  | inl full ↦
      let waiting : bq_push q val ≡ waits = rw full at (bq_push-Pushed q val r) in
      absurd (ground (arith, waiting, e))
  | inr room ↦
      let (size', q'', run, p) = rw room at (bq_push-Pushed q val r) in
      let (same_size, same) = returned (sym run ∙ e) in
      subst (λ k. Pushed q val k q') same_size (subst (λ u. Pushed q val size' u) same p)
]

pub pop_returned :
    (q : BQueue) (val : ℕ) (q' : BQueue)
    → IsRing q
    → bq_pop q ≡ returns (some val) q'
    → Popped q val q'
pop_returned q val q' r e = elim (Bool-cases (q.count == 0)) [
  | inl empty ↦
      let none_left : bq_pop q ≡ (if q.closed then returns none q else waits) =
        rw empty at (bq_pop-Popped q r) in
      absurd (ground (arith, none_left, e))
  | inr filled ↦
      let (val', q'', run, p) = rw filled at (bq_pop-Popped q r) in
      let (same_val, same) = returned (sym run ∙ e) in
      let equal : val' ≡ val = cc in
      subst (λ k. Popped q k q') equal (subst (λ u. Popped q val' u) same p)
]

pub end_returned :
    (q : BQueue) (q' : BQueue)
    → bq_pop q ≡ returns none q'
    → (q ≡ q') × (q.count ≡ 0) × (q.closed ≡ true)
unfolding bq_pop
end_returned q q' e = elim (Bool-cases (q.count == 0)) [
  | inl empty ↦ elim (Bool-cases q.closed) [
    | inl shut ↦ (ground arith, ground arith, shut)
    | inr opened ↦ absurd (ground arith)
  ]
  | inr filled ↦ absurd (ground arith)
]
