-- ===== src/Sorting/Bubble.antt =====
-- `bubble_sort`.
use c_programming.Prelude.{
  ℕ, zero, suc, ◌+◌, ◌-◌, ◌≤◌, ◌<◌, ◌≡◌, refl, Bool, true, false, ◌==◌, arith, Bool-cases, inl, inr,
}
use c_programming.Prelude.Int.{ℤ, ◌≤ℤ◌, ltb_ℤ}
use c_programming.Sorting.{Array, write, swap_int, bubble_pass, bubble_loop, bubble_sort}
use c_programming.Sorting.Arrays.{
  Rearranged, IsSorted, Rearranged-refl, Rearranged-trans, Rearranged-swap_int,
}

-- What a pass over the places from `j` to `e` leaves, with the flag: no value there, old or new, is
-- above the last one, and none is above a bound of the old ones; the places around are the same; and
-- where the flag is not set, nothing has changed and all neighbours are in order.
record Passed (j e : ℕ) (a : Array) (r : Bool × Array) : Type 0 where
  top : (p : ℕ) → j ≤ p → p ≤ e → r.1 p ≤ℤ r.1 e
  high : (p : ℕ) → j ≤ p → p ≤ e → a p ≤ℤ r.1 e
  bound : (x : ℤ) → ((p : ℕ) → j ≤ p → p ≤ e → a p ≤ℤ x) → (p : ℕ) → j ≤ p → p ≤ e → r.1 p ≤ℤ x
  under : (p : ℕ) → p < j → r.1 p ≡ a p
  over : (p : ℕ) → e < p → r.1 p ≡ a p
  kept : r.0 ≡ false → (p : ℕ) → r.1 p ≡ a p
  ordered : r.0 ≡ false → (p : ℕ) → j ≤ p → p < e → a p ≤ℤ a (suc p)

sunk :
    (j e : ℕ) (a : Array) (r : Bool × Array)
    → suc j ≤ e
    → Passed (suc j) e (swap_int a j (suc j)) r
    → a (suc j) ≤ℤ a j
    → Passed j e a (true, r.1)
unfolding swap_int write
sunk j e a r le s h = record {
  top = λ p f l. ground (arith, s.top p, s.high (suc j), s.under j, s.top e);
  high = λ p f l. ground (arith, s.high p, s.high (suc j));
  bound = λ x b p f l.
      ground
        (arith, s.under j, b (suc j), s.bound x (λ q g m. ground (arith, b q, b j, b (suc j))) p);
  under = λ p f. ground (arith, s.under p);
  over = λ p f. ground (arith, s.over p);
  kept = λ f. absurd (ground arith);
  ordered = λ f. absurd (ground arith);
}

carried :
    (j e : ℕ) (a : Array) (r : Bool × Array)
    → suc j ≤ e
    → Passed (suc j) e a r
    → a j ≤ℤ a (suc j)
    → Passed j e a r
carried j e a r le s h = record {
  top = λ p f l. ground (arith, s.top p, s.high (suc j), s.under j);
  high = λ p f l. ground (arith, s.high p, s.high (suc j));
  bound = λ x b p f l. ground (arith, s.under j, b j, s.bound x (λ q g m. b q (omega arith) m) p);
  under = λ p f. ground (arith, s.under p);
  over = λ p f. ground (arith, s.over p);
  kept = s.kept;
  ordered = λ f p g l. ground (arith, s.ordered f p);
}

bubble_pass-Passed : (k j e : ℕ) (a : Array) → k + j ≡ e → Passed j e a (bubble_pass k j a)
unfolding bubble_pass
bubble_pass-Passed zero j e a same = record {
  top = λ p h l. ground arith;
  high = λ p h l. ground arith;
  bound = λ x b p h l. b p h l;
  under = λ p h. refl;
  over = λ p h. refl;
  kept = λ f p. refl;
  ordered = λ f p h l. absurd (omega arith);
}
bubble_pass-Passed (suc k) j e a same = elim (Bool-cases (ltb_ℤ (a (suc j)) (a j))) [
  | inl less ↦
      let r = bubble_pass-Passed k (suc j) e (swap_int a j (suc j)) (omega arith) in
      rw less (sunk j e a _ (omega arith) r (ground arith))
  | inr more ↦
      let r = bubble_pass-Passed k (suc j) e a (omega arith) in
      rw more (carried j e a _ (omega arith) r (ground arith))
]

bubble_pass-Rearranged :
    (k j n : ℕ) (a : Array) → k + j < n → Rearranged a ((bubble_pass k j a).1) n
unfolding bubble_pass
bubble_pass-Rearranged zero j n a h = Rearranged-refl a n
bubble_pass-Rearranged (suc k) j n a h = elim (Bool-cases (ltb_ℤ (a (suc j)) (a j))) [
  | inl less ↦ rw less (
      Rearranged-trans (Rearranged-swap_int a j (suc j) n (omega arith) (omega arith))
        (bubble_pass-Rearranged k (suc j) n (swap_int a j (suc j)) (omega arith)))
  | inr more ↦ rw more (bubble_pass-Rearranged k (suc j) n a (omega arith))
]

-- Neighbours in order up to `e` are in order altogether.
chained :
    (a : Array) (e : ℕ)
    → ((p : ℕ) → p < e → a p ≤ℤ a (suc p))
    → (p q : ℕ) → p ≤ q
    → q ≤ e
    → a p ≤ℤ a q
chained a e s p zero h l = ground arith
chained a e s p (suc q) h l = ground (arith, chained a e s p q, s q)

-- Each place after `e` is in order with all places before it.
abbrev Settled : Array → ℕ → ℕ → Type 0
Settled a e n = (p q : ℕ) → p < q → q < n → e < q → a p ≤ℤ a q

Settled-bubble_pass :
    (e n : ℕ) (a : Array) (r : Bool × Array)
    → Settled a (suc e) n
    → Passed 0 (suc e) a r
    → Settled (r.1) e n
Settled-bubble_pass e n a r s d p q before last after = elim (Bool-cases (q == suc e)) [
  | inl there ↦ ground (arith, d.top p)
  | inr later ↦
      let further : suc e < q = ground arith in
      let capped = d.bound (a q) (λ k f l. s k q (omega arith) last further) p (omega arith) in
      ground (arith, capped, d.over p, d.over q, s p q)
]

unswapped-IsSorted :
    (e n : ℕ) (a : Array) (r : Bool × Array)
    → Settled a e n
    → Passed 0 e a r
    → r.0 ≡ false
    → IsSorted (r.1) n
unswapped-IsSorted e n a r s d f p q before last =
    ground
      (arith, d.kept f p, d.kept f q, s p q, chained a e (λ k l. d.ordered f k (omega arith) l) p q)

bubble_loop-IsSorted :
    (left n : ℕ) (a : Array)
    → left < n
    → Settled a left n
    → IsSorted (bubble_loop left a) n × Rearranged a (bubble_loop left a) n
unfolding bubble_loop
bubble_loop-IsSorted zero n a h s =
    (λ p q before last. s p q before last (omega arith), Rearranged-refl a n)
bubble_loop-IsSorted (suc left) n a h s =
    let r = bubble_pass (suc left) 0 a in
    let d = bubble_pass-Passed (suc left) 0 (suc left) a (omega arith) in
    let moved = bubble_pass-Rearranged (suc left) 0 n a (omega arith) in
    let (sorted, same) =
      bubble_loop-IsSorted left n (r.1) (omega arith) (Settled-bubble_pass left n a r s d) in
    elim (Bool-cases (r.0)) [
      | inl again ↦ rw again (sorted, Rearranged-trans moved same)
      | inr done ↦ rw done (unswapped-IsSorted (suc left) n a r s d done, moved)
    ]

-- `bubble_sort` leaves the first `n` places of the array in ascending order, with the values that
-- stood there, each as often, and changes no other place, although it stops after a pass without a
-- swap.
pub bubble_sort-IsSorted :
    (a : Array) (n : ℕ) → IsSorted (bubble_sort a n) n × Rearranged a (bubble_sort a n) n
unfolding bubble_sort bubble_loop
bubble_sort-IsSorted a zero = ((λ p q before last. absurd (omega arith)), Rearranged-refl a 0)
bubble_sort-IsSorted a (suc n) =
    let rounds : suc n - 1 ≡ n = omega arith in
    rw rounds (
      bubble_loop-IsSorted n (suc n) a (omega arith)
        (λ p q before last after. absurd (omega arith)))
