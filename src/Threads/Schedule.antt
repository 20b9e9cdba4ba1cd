-- ===== src/Threads/Schedule.antt =====
-- All interleavings of the producer and the two consumers: what they take out of the queue.
use c_programming.Prelude.{
  ℕ, zero, suc, ◌+◌, ◌≤◌, ◌≡◌, refl, true, List, [], ◌∷◌, ◌++◌, arith, ap, subst, sym, ◌∙◌,
  Bool-cases, inl, inr, length, length-append, if◌then◌else◌, ◌||◌,
}
use mathlib.Core.List.{append_assoc, append-nil}
use c_programming.Threads.{
  nitems, finish, System, start, Step, produce, shut, take1, take2, end1, end2, Steps, stay, step,
}
use c_programming.Threads.Ring.{from, contents, IsRing, push_returned, pop_returned, end_returned}

-- 0, 1, ... below `n`.
unfoldable pub upto : ℕ → List ℕ
upto zero = []
upto (suc n) = upto n ++ n ∷ []

unfoldable pub total : List ℕ → ℕ
total [] = 0
total (v ∷ vs) = v + total vs

total-snoc : (vs : List ℕ) (v : ℕ) → total (vs ++ v ∷ []) ≡ total vs + v
unfolding total
total-snoc [] v = omega arith
total-snoc (w ∷ vs) v = omega (arith, total-snoc vs v)

upto_more : (n : ℕ) → upto (n + 1) ≡ upto n ++ n ∷ []
unfolding upto
upto_more n = ap upto (more n)
  where
    more : (n : ℕ) → n + 1 ≡ suc n
    more n = omega arith

pushed_order :
    (taken old new : List ℕ) (n : ℕ)
    → taken ++ old ≡ upto n
    → new ≡ old ++ n ∷ []
    → taken ++ new ≡ upto (n + 1)
pushed_order taken old new n order e =
    ap (λ l. taken ++ l) e
    ∙ sym (append_assoc taken old (n ∷ []))
    ∙ ap (λ l. l ++ n ∷ []) order
    ∙ sym (upto_more n)

popped_order :
    (taken old new all : List ℕ) (v : ℕ)
    → taken ++ old ≡ all
    → old ≡ v ∷ new
    → (taken ++ v ∷ []) ++ new ≡ all
popped_order taken old new all v order e =
    append_assoc taken (v ∷ []) new ∙ ap (λ l. taken ++ l) (sym e) ∙ order

-- What holds whatever the scheduler has chosen so far.
pub record IsSafe (s : System) : Type 0 where
  pub ring : IsRing s.bq
  pub order : s.taken ++ contents s.bq ≡ upto s.next
  pub most : s.next ≤ nitems
  pub last : s.bq.closed ≡ true → s.next ≡ nitems
  pub end_1 : s.cons1.ended ≡ true → (s.bq.closed ≡ true) × (s.bq.count ≡ 0)
  pub end_2 : s.cons2.ended ≡ true → (s.bq.closed ≡ true) × (s.bq.count ≡ 0)
  pub sums : s.cons1.sum + s.cons2.sum ≡ total s.taken
  pub numbers : s.cons1.n + s.cons2.n ≡ length s.taken

start-IsSafe : (garbage : ℕ → ℕ) → IsSafe (start garbage)
unfolding upto from total
start-IsSafe garbage = record {
  ring = record { small = omega arith; head_in = omega arith; tail_at = refl };
  order = refl;
  most = omega arith;
  last = λ e. absurd (ground arith);
  end_1 = λ e. absurd (ground arith);
  end_2 = λ e. absurd (ground arith);
  sums = refl;
  numbers = refl;
}

Step-IsSafe : {s t : System} → IsSafe s → Step s t → IsSafe t
Step-IsSafe i (produce s size q lt e) =
    let p = push_returned s.bq s.next size q i.ring e in
    record {
      ring = p.ring;
      order = pushed_order s.taken (contents s.bq) (contents q) s.next i.order p.listed;
      most = omega arith;
      last = λ c. absurd (ground (arith, i.last, p.closed));
      end_1 = λ c. absurd (ground (arith, i.last, i.end_1));
      end_2 = λ c. absurd (ground (arith, i.last, i.end_2));
      sums = i.sums;
      numbers = i.numbers;
    }
Step-IsSafe i (shut s e c) = record {
  ring = record { small = i.ring.small; head_in = i.ring.head_in; tail_at = i.ring.tail_at };
  order = i.order;
  most = i.most;
  last = λ f. e;
  end_1 = λ f. ground (arith, i.end_1);
  end_2 = λ f. ground (arith, i.end_2);
  sums = i.sums;
  numbers = i.numbers;
}
Step-IsSafe i (take1 s val q c e) =
    let p = pop_returned s.bq val q i.ring e in
    record {
      ring = p.ring;
      order = popped_order s.taken (contents s.bq) (contents q) (upto s.next) val i.order p.listed;
      most = i.most;
      last = λ f. i.last (sym p.closed ∙ f);
      end_1 = λ f. absurd (ground arith);
      end_2 = λ f. absurd (omega (arith, (i.end_2 f).1, p.counted));
      sums = omega (arith, i.sums, total-snoc s.taken val);
      numbers = omega (arith, i.numbers, length-append s.taken (val ∷ []));
    }
Step-IsSafe i (take2 s val q c e) =
    let p = pop_returned s.bq val q i.ring e in
    record {
      ring = p.ring;
      order = popped_order s.taken (contents s.bq) (contents q) (upto s.next) val i.order p.listed;
      most = i.most;
      last = λ f. i.last (sym p.closed ∙ f);
      end_1 = λ f. absurd (omega (arith, (i.end_1 f).1, p.counted));
      end_2 = λ f. absurd (ground arith);
      sums = omega (arith, i.sums, total-snoc s.taken val);
      numbers = omega (arith, i.numbers, length-append s.taken (val ∷ []));
    }
Step-IsSafe i (end1 s q c e) =
    let (same, count, closed) = end_returned s.bq q e in
    let j : IsSafe (record s { cons1 = finish s.cons1 }) = record {
      ring = i.ring;
      order = i.order;
      most = i.most;
      last = i.last;
      end_1 = λ f. (closed, count);
      end_2 = i.end_2;
      sums = i.sums;
      numbers = i.numbers;
    } in
    subst (λ u. IsSafe (record s { bq = u; cons1 = finish s.cons1 })) same j
Step-IsSafe i (end2 s q c e) =
    let (same, count, closed) = end_returned s.bq q e in
    let j : IsSafe (record s { cons2 = finish s.cons2 }) = record {
      ring = i.ring;
      order = i.order;
      most = i.most;
      last = i.last;
      end_1 = i.end_1;
      end_2 = λ f. (closed, count);
      sums = i.sums;
      numbers = i.numbers;
    } in
    subst (λ u. IsSafe (record s { bq = u; cons2 = finish s.cons2 })) same j

pub Steps-IsSafe : (garbage : ℕ → ℕ) {s : System} → Steps (start garbage) s → IsSafe s
Steps-IsSafe garbage (stay _) = start-IsSafe garbage
Steps-IsSafe garbage (step run one) = Step-IsSafe (Steps-IsSafe garbage run) one

emptied : (s : System) → IsSafe s → s.bq.closed ≡ true → s.bq.count ≡ 0 → s.taken ≡ upto nitems
unfolding from
emptied s i closed count =
    let order = subst (λ m. s.taken ++ from s.bq.data_at s.bq.head m ≡ upto s.next) count i.order in
    sym (append-nil s.taken) ∙ order ∙ ap upto (i.last closed)

-- Whatever the scheduler chooses, the values leave the queue in the order 0, 1, ... in which the
-- producer adds them, none lost and none twice: those that have left, and those in the queue after
-- them, are the ones added so far. The sums and the counts of the two consumers together are those of
-- the values that have left, and once a consumer has ended, all 20 have.
pub taken-upto :
    (garbage : ℕ → ℕ) (s : System)
    → Steps (start garbage) s
    → (s.taken ++ contents s.bq ≡ upto s.next)
      × (s.cons1.sum + s.cons2.sum ≡ total s.taken)
      × (s.cons1.n + s.cons2.n ≡ length s.taken)
      × (if s.cons1.ended || s.cons2.ended then s.taken ≡ upto nitems else s.next ≤ nitems)
taken-upto garbage s run =
    let i = Steps-IsSafe garbage run in
    (
      i.order,
      i.sums,
      i.numbers,
      elim (Bool-cases s.cons1.ended) [
        | inl one ↦ rw one (let (closed, count) = i.end_1 one in emptied s i closed count)
        | inr on1 ↦ elim (Bool-cases s.cons2.ended) [
          | inl two ↦ rw (on1, two) (let (closed, count) = i.end_2 two in emptied s i closed count)
          | inr on2 ↦ rw (on1, on2) i.most
        ]
      ],
    )
