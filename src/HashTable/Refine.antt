-- ===== src/HashTable/Refine.antt =====
-- Any sequence of calls on a table answers as the same calls on a map from keys to values.
use c_programming.Prelude.{
  ◌≡◌, refl, Bool, Option, none, some, List, [], ◌∷◌, if◌then◌else◌, arith, ap, ap₂, ◌∙◌,
}
use c_programming.Prelude.Int.{ℤ}
use c_programming.HashTable.{Key, str_eq, HashMap, get, put, delete, contains, create}
use c_programming.HashTable.Chain.{is_some}
use c_programming.HashTable.Table.{IsValid, create-IsValid}
use c_programming.HashTable.Put.{IsLight, put-Written, delete-Erased, contains-get}

pub data Call : Type 0 where
  put_call : Key → ℤ → Call
  get_call : Key → Call
  contains_call : Key → Call
  delete_call : Key → Call

pub data Reply : Type 0 where
  value : Option ℤ → Reply
  truth : Bool → Reply

-- The replies of the table.
unfoldable pub run : HashMap → List Call → List Reply
run m [] = []
run m (put_call k v ∷ calls) = run (put m k v) calls
run m (get_call k ∷ calls) = value (get m k) ∷ run m calls
run m (contains_call k ∷ calls) = truth (contains m k) ∷ run m calls
run m (delete_call k ∷ calls) = let (done, m') = delete m k in truth done ∷ run m' calls

-- A map that forgets how its entries are stored.
abbrev pub Dictionary : Type 0
Dictionary = Key → Option ℤ

abbrev pub bind : Key → Option ℤ → Dictionary → Dictionary
bind k v f q = if str_eq k q then v else f q

-- The replies of the map.
unfoldable pub answers : Dictionary → List Call → List Reply
answers f [] = []
answers f (put_call k v ∷ calls) = answers (bind k (some v) f) calls
answers f (get_call k ∷ calls) = value (f k) ∷ answers f calls
answers f (contains_call k ∷ calls) = truth (is_some (f k)) ∷ answers f calls
answers f (delete_call k ∷ calls) = truth (is_some (f k)) ∷ answers (bind k none f) calls

run-answers_from :
    (calls : List Call) (m : HashMap) (f : Dictionary)
    → IsValid m
    → IsLight m
    → ((q : Key) → get m q ≡ f q)
    → run m calls ≡ answers f calls
unfolding run answers
run-answers_from [] m f v light same = refl
run-answers_from (put_call k x ∷ calls) m f v light same =
    let w = put-Written m k x v light in
    run-answers_from calls (put m k x) (bind k (some x) f) w.valid w.light
      (λ q. ground (arith, w.reads q, same q))
run-answers_from (get_call k ∷ calls) m f v light same =
    ap₂ (λ a r. value a ∷ r) (same k) (run-answers_from calls m f v light same)
run-answers_from (contains_call k ∷ calls) m f v light same =
    ap₂ (λ a r. truth a ∷ r) (contains-get m k ∙ ap is_some (same k))
      (run-answers_from calls m f v light same)
run-answers_from (delete_call k ∷ calls) m f v light same =
    let e = delete-Erased m k v light in
    ap₂ (λ a r. truth a ∷ r) (e.found ∙ ap is_some (same k))
      (run-answers_from calls ((delete m k).1) (bind k none f) e.valid e.light
        (λ q. ground (arith, e.reads q, same q)))

-- From `hmap_create` on, any sequence of puts, gets, tests and deletions gets the replies of a map
-- from keys to values that starts empty.
pub run-answers : (calls : List Call) → run create calls ≡ answers (λ _. none) calls
run-answers calls =
    run-answers_from calls create (λ _. none) create-IsValid (unfold create in omega arith)
      (λ q. unfold create get c_programming.HashTable.find in refl)
