-- ===== src/Collections.antt =====
-- JavaScript's `Map` with text keys and `Set` of texts, in insertion order.
pub mod Laws
pub mod Sorting
use troofai_mvp.Prelude.{
  String, Bool, true, false, Option, none, some, List, [], ◌∷◌, ◌==◌, ◌||◌, map, if◌then◌else◌,
}

module _ {V : Type 0} where
  -- m.get(k)
  unfoldable pub get : String → List (String × V) → Option V
  get k [] = none
  get k ((j, v) ∷ m) = if j == k then some v else get k m

  -- m.set(k, v): a key that is there keeps its place
  unfoldable pub set : String → V → List (String × V) → List (String × V)
  set k v [] = (k, v) ∷ []
  set k v ((j, w) ∷ m) = if j == k then (k, v) ∷ m else (j, w) ∷ set k v m

  -- m.delete(k)
  unfoldable pub delete : String → List (String × V) → List (String × V)
  delete k [] = []
  delete k ((j, w) ∷ m) = if j == k then m else (j, w) ∷ delete k m

  -- m.keys()
  abbrev pub keys : List (String × V) → List String
  keys = map (λ e. e.0)

-- s.has(x)
unfoldable pub contains : String → List String → Bool
contains x [] = false
contains x (y ∷ s) = y == x || contains x s

-- s.add(x)
unfoldable pub add : String → List String → List String
add x [] = x ∷ []
add x (y ∷ s) = if y == x then y ∷ s else y ∷ add x s

-- s.delete(x)
unfoldable pub drop : String → List String → List String
drop x [] = []
drop x (y ∷ s) = if y == x then s else y ∷ drop x s
