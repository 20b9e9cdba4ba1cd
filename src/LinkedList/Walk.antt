-- ===== src/LinkedList/Walk.antt =====
-- Where the walks along a list stop, and what a change of links at that place does to the chain.
use c_programming.Prelude.{
  ℕ, zero, suc, ◌<◌, ◌≡◌, refl, false, [], ◌∷◌, ◌++◌, arith, ◌==◌, ap, take, drop, length,
  Bool-cases, inl, inr,
}
use c_programming.Prelude.Int.{ℤ, ◌==ℤ◌}
use c_programming.Nodes.{Ptr, null, Heap, Run, ok}
use c_programming.Nodes.Chain.{Cells, Chain, load-ok}
use c_programming.LinkedList.{last_node, advance, before}
use c_programming.LinkedList.Spec.{erase}

-- The run stops at one of the cells `xs`, without a change of the heap.
pub record Stops (h : Heap) (xs : Cells) (r : Run Ptr) (P : Cells → Ptr × ℤ → Cells → Type 0)
    : Type 0 where
  pub front : Cells
  pub at : Ptr × ℤ
  pub back : Cells
  pub split : xs ≡ front ++ at ∷ back
  pub run : r ≡ ok (at.0) h
  pub holds : P front at back

Stops-cons :
    (h : Heap) (c : Ptr × ℤ) {xs : Cells} {r : Run Ptr} (P : Cells → Ptr × ℤ → Cells → Type 0)
    {Q : Cells → Ptr × ℤ → Cells → Type 0}
    → Stops h xs r P
    → ((front : Cells) (at : Ptr × ℤ) (back : Cells)
        → xs ≡ front ++ at ∷ back
        → P front at back
        → Q (c ∷ front) at back)
    → Stops h (c ∷ xs) r Q
Stops-cons h c P s weaken = record {
  front = c ∷ s.front;
  at = s.at;
  back = s.back;
  split = ap (λ l. c ∷ l) s.split;
  run = s.run;
  holds = weaken s.front s.at s.back s.split s.holds;
}

pub last_node-Stops :
    (k : ℕ) (h : Heap) (p : Ptr) (v : ℤ) (xs : Cells)
    → Chain h ((p, v) ∷ xs) null
    → length xs < k
    → Stops h ((p, v) ∷ xs) (last_node k p h) (λ _ _ back. back ≡ [])
unfolding last_node
last_node-Stops zero h p v xs c fuel = absurd (omega arith)
last_node-Stops (suc k) h p v [] c fuel = record {
  front = [];
  at = (p, v);
  back = [];
  split = refl;
  run = rw (load-ok h c.0 c.1);
  holds = refl;
}
last_node-Stops (suc k) h p v ((q, w) ∷ xs) c fuel =
    let next : (q == null) ≡ false = ground (arith, c.3.0) in
    rw (load-ok h c.0 c.1, next)
      (Stops-cons h (p, v) (λ _ _ back. back ≡ []) (last_node-Stops k h q w xs c.3 (omega arith))
        (λ f a b e n. n))

-- Where `advance k` stops, `k + 1` cells lie up to the place, if there are so many.
abbrev pub After : ℕ → Cells → Cells → Ptr × ℤ → Cells → Type 0
After k xs front at back = (take (suc k) xs ≡ front ++ at ∷ []) × (drop (suc k) xs ≡ back)

pub advance-Stops :
    (k : ℕ) (h : Heap) (p : Ptr) (v : ℤ) (xs : Cells)
    → Chain h ((p, v) ∷ xs) null
    → Stops h ((p, v) ∷ xs) (advance k p h) (After k ((p, v) ∷ xs))
unfolding advance
advance-Stops zero h p v xs c = record {
  front = [];
  at = (p, v);
  back = xs;
  split = refl;
  run = refl;
  holds = (refl, refl);
}
advance-Stops (suc k) h p v [] c = record {
  front = [];
  at = (p, v);
  back = [];
  split = refl;
  run = rw (load-ok h c.0 c.1);
  holds = (refl, refl);
}
advance-Stops (suc k) h p v ((q, w) ∷ xs) c =
    let next : (q == null) ≡ false = ground (arith, c.3.0) in
    rw (load-ok h c.0 c.1, next)
      (Stops-cons h (p, v) (After k ((q, w) ∷ xs)) (advance-Stops k h q w xs c.3)
        (λ f a b e n. (ap (λ l. (p, v) ∷ l) n.0, n.1)))

-- Where the walk of `list_delete_value` stops, the next cell is the one that goes.
abbrev pub tail_of : Cells → Cells
tail_of [] = []
tail_of (c ∷ xs) = xs

abbrev pub Found : ℤ → Cells → Cells → Ptr × ℤ → Cells → Type 0
Found v xs front at back = erase v xs ≡ front ++ at ∷ tail_of back

pub before-Stops :
    (k : ℕ) (value : ℤ) (h : Heap) (p : Ptr) (v : ℤ) (xs : Cells)
    → Chain h ((p, v) ∷ xs) null
    → length xs < k
    → (v ==ℤ value) ≡ false
    → Stops h ((p, v) ∷ xs) (before k value p h) (Found value ((p, v) ∷ xs))
unfolding before erase
before-Stops zero value h p v xs c fuel miss = absurd (omega arith)
before-Stops (suc k) value h p v [] c fuel miss = record {
  front = [];
  at = (p, v);
  back = [];
  split = refl;
  run = rw (load-ok h c.0 c.1);
  holds = rw miss;
}
before-Stops (suc k) value h p v ((q, w) ∷ xs) c fuel miss =
    let next : (q == null) ≡ false = ground (arith, c.3.0) in
    rw (load-ok h c.0 c.1, next, load-ok h c.3.0 c.3.1)
      (elim (Bool-cases (w ==ℤ value)) [
        | inl hit ↦ record {
          front = [];
          at = (p, v);
          back = (q, w) ∷ xs;
          split = refl;
          run = rw hit;
          holds = rw (miss, hit);
        }
        | inr other ↦ rw other (
            Stops-cons h (p, v) (Found value ((q, w) ∷ xs))
              (before-Stops k value h q w xs c.3 (omega arith) other)
              (λ f a b e n. rw miss (ap (λ l. (p, v) ∷ l) n)))
      ])
