-- ===== src/StackQueue/Stack/Laws.antt =====
-- What each function does to a stack of given cells.
use c_programming.Prelude.{
  ℕ, zero, suc, ◌+◌, ◌-◌, ◌<◌, ◌≡◌, refl, false, none, some, [], ◌∷◌, ◌==◌, arith, length,
  if◌then◌else◌,
}
use c_programming.Prelude.Int.{ℤ}
use c_programming.Nodes.{
  Ptr, null, Heap, ok, exited, node, put, ◌>>=◌, IsFresh, int_max, Ends, node_create, increment-ok,
}
use c_programming.Nodes.Chain
use c_programming.Nodes.Chain.{
  Cells, has, first, values, load-ok, set_next-ok, free-ok, has_of_none,
}
use c_programming.StackQueue.Stack.{
  Stack, stack, push, pop, peek, drain, destroy, print, print_loop,
}

-- `s` is the stack of the cells `xs`, the top first.
pub record IsStack (h : Heap) (s : Stack) (xs : Cells) : Type 0 where
  pub top : s.top ≡ first xs null
  pub size : s.size ≡ length xs
  pub chain : Chain.Chain h xs null

module _ (h : Heap) (s : Stack) (xs : Cells) (is : IsStack h s xs) where
  -- `stack_push` ends without error in the stack with one more cell on top, and writes only there.
  pub push-IsStack :
      (p : Ptr) (v : ℤ)
      → IsFresh h p
      → length xs < int_max
      → Ends (push p s v h) (λ s' g.
        (s' ≡ stack p (s.size + 1))
        × IsStack g s' ((p, v) ∷ xs)
        × ((a : Ptr) → g a ≡ put h p (some (node v (first xs null))) a))
  unfolding push put node_create
  push-IsStack p v new small =
      let created = put h p (some (node v null)) in
      let live = new.ne_null in
      let here : created p ≡ some (node v null) = ground arith in
      let out = has_of_none h p xs null is.chain new.unused in
      let not_null : (p == null) ≡ false = ground (arith, live) in
      (
        stack p (s.size + 1),
        put created p (some (node v s.top)),
        rw (
          not_null,
          set_next-ok created live here,
          increment-ok s.size _ (omega (arith, is.size)),
        ),
        (
          refl,
          record {
            top = refl;
            size = omega (arith, is.size);
            chain = (
              live,
              ground (arith, is.top),
              out,
              Chain.Chain-put created p _ xs null (Chain.Chain-put h p _ xs null is.chain out) out,
            );
          },
          λ a. ground (arith, is.top),
        ),
      )

-- `stack_pop` takes off the top cell: it returns its value and frees its node, and no other node
-- changes.
pub pop-IsStack :
    (h : Heap) (s : Stack) (p : Ptr) (v : ℤ) (xs : Cells)
    → IsStack h s ((p, v) ∷ xs)
    → Ends (pop s h) (λ (r, s') g.
      (r ≡ v)
      × (s' ≡ stack (first xs null) (s.size - 1))
      × IsStack g s' xs
      × ((a : Ptr) → g a ≡ put h p none a))
unfolding pop
pop-IsStack h s p v xs is =
    let c = is.chain in
    let filled : (s.size == 0) ≡ false = ground (arith, is.size) in
    (
      (v, stack (first xs null) (s.size - 1)),
      put h p none,
      rw (filled, is.top, load-ok h (c.0) (c.1), free-ok h (c.0) (c.1)),
      (
        refl,
        refl,
        record {
          top = refl;
          size = omega (arith, is.size);
          chain = Chain.Chain-put h p none xs null (c.3) (c.2);
        },
        λ a. refl,
      ),
    )

-- `stack_peek` returns the value of the top cell and changes nothing.
pub peek-IsStack :
    (h : Heap) (s : Stack) (p : Ptr) (v : ℤ) (xs : Cells)
    → IsStack h s ((p, v) ∷ xs)
    → peek s h ≡ ok v h
unfolding peek
peek-IsStack h s p v xs is =
    let c = is.chain in
    let filled : (s.size == 0) ≡ false = ground (arith, is.size) in
    rw (filled, is.top, load-ok h (c.0) (c.1))

-- On an empty stack both end the program.
pub pop-nil : (h : Heap) (s : Stack) → IsStack h s [] → (pop s h ≡ exited) × (peek s h ≡ exited)
unfolding pop peek
pop-nil h s is = (rw is.size, rw is.size)

-- A pop straight after a push returns the value that was pushed, in the stack and the heap from
-- before the push.
pub pop-push :
    (h : Heap) (s : Stack) (xs : Cells) (p : Ptr) (v : ℤ)
    → IsStack h s xs
    → IsFresh h p
    → length xs < int_max
    → Ends ((push p s v >>= pop) h) (λ (r, s') g. (r ≡ v) × (s' ≡ s) × ((a : Ptr) → g a ≡ h a))
unfolding put
pop-push h s xs p v is new small =
    let (s₁, g₁, run₁, (same₁, is₁, heap₁)) = push-IsStack h s xs is p v new small in
    let ((r, s₂), g₂, run₂, (value, same₂, is₂, heap₂)) = pop-IsStack g₁ s₁ p v xs is₁ in
    (
      (r, s₂),
      g₂,
      rw (run₁, run₂),
      (
        value,
        ground (arith, same₁, same₂, is.top, is.size),
        λ a. ground (arith, heap₁ a, heap₂ a, new.unused),
      ),
    )

drain-freed :
    (k : ℕ) (h : Heap) (s : Stack) (xs : Cells)
    → IsStack h s xs
    → length xs < k
    → Ends (drain k s h) (λ _ g. (a : Ptr) → g a ≡ (if has a xs then none else h a))
unfolding drain put
drain-freed zero h s xs is fuel = absurd (omega arith)
drain-freed (suc k) h s [] is fuel = (tt, h, rw is.size, λ a. refl)
drain-freed (suc k) h s ((p, v) ∷ xs) is fuel =
    let ((r, s'), g, run, (_, _, is', heap)) = pop-IsStack h s p v xs is in
    let (_, g', run', freed) = drain-freed k g s' xs is' (omega arith) in
    let filled : (s.size == 0) ≡ false = ground (arith, is.size) in
    (tt, g', rw (filled, run) run', λ a. ground (arith, freed a, heap a))

-- `stack_free` ends without error and frees exactly the nodes of the stack.
pub destroy-freed_stack :
    (h : Heap) (s : Stack) (xs : Cells)
    → IsStack h s xs
    → Ends (destroy s h) (λ _ g. (a : Ptr) → g a ≡ (if has a xs then none else h a))
unfolding destroy
destroy-freed_stack h s xs is = drain-freed (s.size + 1) h s xs is (omega (arith, is.size))

print_loop-values :
    (k : ℕ) (h : Heap) (xs : Cells)
    → Chain.Chain h xs null
    → length xs < k
    → print_loop k (first xs null) h ≡ ok (values xs) h
unfolding print_loop
print_loop-values zero h xs c fuel = absurd (omega arith)
print_loop-values (suc k) h [] c fuel = refl
print_loop-values (suc k) h ((p, v) ∷ xs) c fuel =
    let live : (p == null) ≡ false = ground (arith, c.0) in
    rw (live, load-ok h (c.0) (c.1), print_loop-values k h xs (c.3) (omega arith))

-- `stack_print` prints the values from the top down, and the size.
pub print-values_stack :
    (h : Heap) (s : Stack) (xs : Cells) → IsStack h s xs → print s h ≡ ok (values xs, length xs) h
unfolding print
print-values_stack h s xs is =
    rw (is.top, print_loop-values (s.size + 1) h xs is.chain (omega (arith, is.size)), is.size)
