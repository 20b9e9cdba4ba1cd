-- ===== src/Nodes.antt =====
-- The `struct Node` that the linked list, the stack and the queue share, at addresses of a heap,
-- and the effects that their functions have on it: loads, stores, `malloc`, `free`, `exit`.
pub mod Chain
pub mod Links
use c_programming.Prelude.{
  ℕ, ◌+◌, ◌≡◌, Option, none, some, ◌==◌, if◌then◌else◌, arith, ltb, ◌<◌, ◌≢◌,
}
use c_programming.Prelude.Int.{ℤ}

abbrev pub Ptr : Type 0
Ptr = ℕ

abbrev pub null : Ptr
null = 0

abbrev pub int_max : ℕ
int_max = 2147483647

pub record Node : Type 0 where
  pub value : ℤ
  pub next : Ptr

abbrev pub node : ℤ → Ptr → Node
node v q = record { value = v; next = q }

-- An address that holds no live node is `none`.
abbrev pub Heap : Type 0
Heap = Ptr → Option Node

unfoldable pub put : Heap → Ptr → Option Node → Heap
put h p c a = if a == p then c else h a

-- `undefined` is undefined behaviour: a use of a pointer that is null or dangling, or an overflow
-- of an `int`. `exited` is `exit(1)` after a message.
pub data Run (A : Type 0) : Type 0 where
  ok : A → Heap → Run A
  exited : Run A
  undefined : Run A
  out_of_fuel : Run A

abbrev pub Cmd : Type 0 → Type 0
Cmd A = Heap → Run A

abbrev pub pure : {A : Type 0} → A → Cmd A
pure = ok

abbrev pub exit : {A : Type 0} → Cmd A
exit h = exited

module _ {A B : Type 0} where
  abbrev pub then_run : Run A → (A → Cmd B) → Run B
  then_run (ok a h) k = k a h
  then_run exited k = exited
  then_run undefined k = undefined
  then_run out_of_fuel k = out_of_fuel

  infixl 5 ◌>>=◌ ◌>>◌
  abbrev pub ◌>>=◌ : Cmd A → (A → Cmd B) → Cmd B
  m >>= k = λ h. then_run (m h) k

  abbrev pub ◌>>◌ : Cmd A → Cmd B → Cmd B
  m >> n = m >>= λ _. n

-- `*p`
unfoldable pub load : Ptr → Cmd Node
load p h = if p == null then undefined else elim (h p) [ none ↦ undefined | some n ↦ ok n h ]

-- `p->next = q`
unfoldable pub set_next : Ptr → Ptr → Cmd (Unit {0})
set_next p q h = then_run (load p h) λ n g. ok tt (put g p (some (node n.value q)))

-- `free(p)`, for a pointer to a node
unfoldable pub free : Ptr → Cmd (Unit {0})
free p h = then_run (load p h) λ n g. ok tt (put g p none)

-- A new node with a null link. `fresh` is what `malloc` answers, and a null answer ends the
-- program.
unfoldable pub node_create : Ptr → ℤ → Cmd Ptr
node_create fresh value h =
    if fresh == null then exited else ok fresh (put h fresh (some (node value null)))

-- `n++` on an `int` that is not negative
unfoldable pub increment : ℕ → Cmd ℕ
increment n h = if ltb n int_max then ok (n + 1) h else undefined

pub increment-ok : (n : ℕ) (h : Heap) → n < int_max → increment n h ≡ ok (n + 1) h
unfolding increment
increment-ok n h small = ground arith

-- What `malloc` promises of its answer: no live node is there, or it is null.
pub record IsFresh (h : Heap) (p : Ptr) : Type 0 where
  pub ne_null : p ≢ null
  pub unused : h p ≡ none

-- The run ends without error, in a result and a heap that meet `P`.
abbrev pub Ends : {A : Type 0} → Run A → (A → Heap → Type 0) → Type 0
Ends {A} r P = (a : A) × (h : Heap) × (r ≡ ok a h) × P a h
