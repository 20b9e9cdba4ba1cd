-- ===== src/Threads/Conditions/Awake.antt =====
-- No wake-up is lost in `section_condvar` of exercises/24_threads/threads.c.
use c_programming.Prelude.{
  ℕ, ◌+◌, ◌-◌, ◌%◌, ◌≤◌, ◌≡◌, refl, Bool, true, false, some, none, ◌⊎◌, inl, inr, ◌==◌, ◌&&◌, not,
  Bool-cases, arith,
}
use c_programming.Threads.{BQueue, waits, returns, qcap, nitems, put_at, bq_push, bq_pop, System}
use c_programming.Threads.Schedule.{IsSafe, Steps-IsSafe}
use c_programming.Threads.Conditions.{
  Scene, scene, Signal, nobody, wake1, wake2, Act, push, push_blocks, close, pop1, pop2,
  pop1_blocks, pop2_blocks, ends1, ends2, Run,
}
use c_programming.Threads.Conditions.Invariant.{Run-Steps, IsAwake, Run-IsAwake}
use c_programming.Threads.Conditions.Bound.{Run-bound}

-- A call of bq_pop returns a value, is blocked, or returns that there is no more.
pop_cases :
    (q : BQueue)
    → ((val : ℕ) × (q' : BQueue) × (bq_pop q ≡ returns (some val) q'))
      ⊎ ((bq_pop q ≡ waits) ⊎ ((q' : BQueue) × (bq_pop q ≡ returns none q')))
unfolding bq_pop
pop_cases q = elim (Bool-cases ((q.count == 0) && not q.closed)) [
  | inl stuck ↦ inr (inl (rw stuck refl))
  | inr on ↦ elim (Bool-cases (q.count == 0)) [
    | inl empty ↦ inr (inr (q, rw (on, empty) refl))
    | inr filled ↦ inl (
      q.data_at q.head,
      record q { head = (q.head + 1) % qcap; count = q.count - 1 },
      rw (on, filled) refl,
    )
  ]
]

push_cases :
    (q : BQueue) (v : ℕ)
    → ((size : ℕ) × (q' : BQueue) × (bq_push q v ≡ returns size q')) ⊎ (bq_push q v ≡ waits)
unfolding bq_push
push_cases q v = elim (Bool-cases (q.count == qcap)) [
  | inl full ↦ inr (rw full refl)
  | inr room ↦ inl (
    q.count + 1,
    record q {
      data_at = put_at q.data_at q.tail v;
      tail = (q.tail + 1) % qcap;
      count = q.count + 1;
    },
    rw room refl,
  )
]

some_Signal : (c1 c2 : Bool) → (d1 d2 : Bool) × Signal c1 c2 d1 d2
some_Signal false false = (false, false, nobody)
some_Signal true c2 = (false, c2, wake1 c2)
some_Signal false true = (false, false, wake2 false)

-- A thread that is not blocked and has not ended can go on.
module _ (s : System) where
  act1 :
      (p c1 c2 : Bool) → c1 ≡ false → s.cons1.ended ≡ false → (x : Scene) × Act (scene s p c1 c2) x
  act1 p true c2 e on = absurd (ground arith)
  act1 p false c2 e on = elim (pop_cases s.bq) [
    | inl (val, q, e) ↦ (_, pop1 s p c2 val q on e)
    | inr (inl e) ↦ (_, pop1_blocks s p c2 on e)
    | inr (inr (q, e)) ↦ (_, ends1 s p c2 q on e)
  ]

  act2 :
      (p c1 c2 : Bool) → c2 ≡ false → s.cons2.ended ≡ false → (x : Scene) × Act (scene s p c1 c2) x
  act2 p c1 true e on = absurd (ground arith)
  act2 p c1 false e on = elim (pop_cases s.bq) [
    | inl (val, q, e) ↦ (_, pop2 s p c1 val q on e)
    | inr (inl e) ↦ (_, pop2_blocks s p c1 on e)
    | inr (inr (q, e)) ↦ (_, ends2 s p c1 q on e)
  ]

  produces :
      (c1 c2 : Bool)
      → s.next ≤ nitems
      → s.bq.closed ≡ false
      → (x : Scene) × Act (scene s false c1 c2) x
  produces c1 c2 most opened = elim (Bool-cases (s.next == nitems)) [
    | inl all ↦ (_, close s c1 c2 (ground arith) opened)
    | inr more ↦ elim (push_cases s.bq s.next) [
      | inl (size, q, e) ↦
          let (d1, d2, woken) = some_Signal c1 c2 in
          (_, push s c1 c2 d1 d2 size q (ground arith) e woken)
      | inr e ↦ (_, push_blocks s c1 c2 (ground arith) e)
    ]
  ]

  -- All threads have ended, or one goes on.
  abbrev GoesOn : Bool → Bool → Bool → Type 0
  GoesOn p c1 c2 =
      ((s.bq.closed ≡ true) × (s.cons1.ended ≡ true) × (s.cons2.ended ≡ true))
      ⊎ ((x : Scene) × Act (scene s p c1 c2) x)

  not_blocked : (p c1 c2 : Bool) → IsSafe s → s.bq.count ≡ qcap → c1 && c2 ≡ false → GoesOn p c1 c2
  not_blocked p true c2 safe full awake = inr (act2 p true c2 awake (ground (arith, safe.end_2)))
  not_blocked p false c2 safe full awake = inr (act1 p false c2 refl (ground (arith, safe.end_1)))

  goes_on : (p c1 c2 : Bool) → IsSafe s → IsAwake (scene s p c1 c2) → GoesOn p c1 c2
  goes_on p c1 c2 safe i = elim (Bool-cases s.bq.closed) [
    | inl closed ↦
        let (awake1, awake2) = i.all_awake closed in
        elim (Bool-cases s.cons1.ended) [
          | inr on ↦ inr (act1 p c1 c2 awake1 on)
          | inl over1 ↦ elim (Bool-cases s.cons2.ended) [
            | inr on ↦ inr (act2 p c1 c2 awake2 on)
            | inl over2 ↦ inl (closed, over1, over2)
          ]
        ]
    | inr opened ↦ blocked_or_not p i opened
  ]
    where
      blocked_or_not : (p : Bool) → IsAwake (scene s p c1 c2) → s.bq.closed ≡ false → GoesOn p c1 c2
      blocked_or_not false i opened = inr (produces c1 c2 safe.most opened)
      blocked_or_not true i opened =
          let full = i.full refl in
          not_blocked true c1 c2 safe full (i.some_awake (omega (arith, full)))

-- No wake-up is lost: on every schedule, with any spurious wake-ups between the steps, a thread that is
-- not blocked can go on until all three have ended, so they are never all blocked. Each run ends: it has
-- at most 88 steps, and one more for each spurious wake-up.
pub Run-goes_on :
    (garbage : ℕ → ℕ) (n k : ℕ) (w : Scene)
    → Run garbage n k w
    → (n ≤ 88 + k)
      × (((w.sys.bq.closed ≡ true) × (w.sys.cons1.ended ≡ true) × (w.sys.cons2.ended ≡ true))
          ⊎ ((x : Scene) × Act w x))
Run-goes_on garbage n k w r = (
  omega (arith, Run-bound garbage r),
  goes_on w.sys w.blocked w.blocked1 w.blocked2 (Steps-IsSafe garbage (Run-Steps garbage r))
      (Run-IsAwake garbage r),
)
