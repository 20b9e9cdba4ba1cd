-- ===== src/StackQueue/Brackets/Balanced.antt =====
-- The scan against a grammar of balanced texts.
use c_programming.Prelude.{
  ℕ, zero, suc, ◌≡◌, Bool, true, false, List, [], ◌∷◌, ◌++◌, leb, if◌then◌else◌, length,
}
use c_programming.StackQueue.Brackets.{is_open, is_close, is_mismatch, room}

-- The closer `c` closes the opener `o`.
abbrev pub Closes : ℕ → ℕ → Type 0
Closes o c = (is_open o ≡ true) × (is_close c ≡ true) × (is_mismatch c o ≡ false)

-- Texts whose brackets are balanced and nested at most `d` deep.
pub data Balanced : ℕ → List ℕ → Type 0 where
  none_left : {d : ℕ} → Balanced d []
  other :
      {d : ℕ} {s : List ℕ} (c : ℕ)
      → is_open c ≡ false
      → is_close c ≡ false
      → Balanced d s
      → Balanced d (c ∷ s)
  pair :
      {d : ℕ} {s t : List ℕ} (o c : ℕ)
      → Closes o c
      → Balanced d s
      → Balanced (suc d) t
      → Balanced (suc d) (o ∷ (s ++ c ∷ t))

-- The openers on the stack, the last one first.
contents : (ℕ → ℕ) → ℕ → List ℕ
contents stk zero = []
contents stk (suc d) = stk d ∷ contents stk d

-- The same scan on a list of openers.
scan_list : List ℕ → List ℕ → Bool
scan_list [] [] = true
scan_list [] (o ∷ os) = false
scan_list (c ∷ s) [] =
    let opened = scan_list s (c ∷ []) in
    let skipped = scan_list s [] in
    if is_open c then opened else if is_close c then false else skipped
scan_list (c ∷ s) (o ∷ os) =
    let opened = scan_list s (c ∷ o ∷ os) in
    let closed = scan_list s os in
    let skipped = scan_list s (o ∷ os) in
    if is_open c
    then (if leb room (length (o ∷ os)) then false else opened)
    else if is_close c
    then (if is_mismatch c o then false else closed)
    else skipped

-- What is left of a text when the openers `st` are on the stack and `d` more fit.
Pending : ℕ → List ℕ → List ℕ → Type 0
Pending d [] s = Balanced d s
Pending d (o ∷ st) s =
    (b : List ℕ) × (c : ℕ) × (t : List ℕ) × (s ≡ b ++ c ∷ t)
    × Closes o c
    × Balanced d b
    × Pending (suc d) st t
