-- ===== src/Collections/Laws.antt =====
-- The laws of `Map` and `Set` that services/hub-api/src/gateway/events.gateway.ts relies on.
use troofai_mvp.Prelude.{
  String, ◌≡◌, refl, true, false, none, some, List, [], ◌∷◌, arith, ◌==◌, eq_iff, if◌then◌else◌,
}
use troofai_mvp.Collections.{get, set, delete, keys, contains, add, drop}

-- No element occurs twice.
abbrev pub IsDistinct : List String → Type 0
IsDistinct [] = Unit
IsDistinct (x ∷ xs) = (contains x xs ≡ false) × IsDistinct xs

module _ {V : Type 0} where
  pub get-set :
      (k j : String) (v : V) (m : List (String × V))
      → get j (set k v m) ≡ (if k == j then some v else get j m)
  unfolding get set
  get-set k j v [] = refl
  get-set k j v ((i, w) ∷ m) = ground (arith, get-set k j v m, eq_iff i k, eq_iff i j, eq_iff k j)

  pub contains-keys-set :
      (k j : String) (v : V) (m : List (String × V))
      → contains j (keys (set k v m)) ≡ (if k == j then true else contains j (keys m))
  unfolding set contains
  contains-keys-set k j v [] = ground arith
  contains-keys-set k j v ((i, w) ∷ m) =
      ground (arith, contains-keys-set k j v m, eq_iff i k, eq_iff i j, eq_iff k j)

  pub set-IsDistinct :
      (k : String) (v : V) (m : List (String × V))
      → IsDistinct (keys m)
      → IsDistinct (keys (set k v m))
  unfolding set contains
  set-IsDistinct k v [] h = (refl, tt)
  set-IsDistinct k v ((i, w) ∷ m) h =
      ground (arith, set-IsDistinct k v m h.1, contains-keys-set k i v m, eq_iff i k, eq_iff k i)

  pub get_absent :
      (k : String) (m : List (String × V)) → contains k (keys m) ≡ false → get k m ≡ none
  unfolding get contains
  get_absent k [] h = refl
  get_absent k ((i, w) ∷ m) h = ground (arith, get_absent k m)

  pub get-delete :
      (k j : String) (m : List (String × V))
      → IsDistinct (keys m)
      → get j (delete k m) ≡ (if k == j then none else get j m)
  unfolding get delete
  get-delete k j [] h = ground arith
  get-delete k j ((i, w) ∷ m) h =
      ground (arith, get-delete k j m h.1, get_absent i m h.0, eq_iff i k, eq_iff i j, eq_iff k j)

  pub contains-keys-delete :
      (k j : String) (m : List (String × V))
      → contains j (keys m) ≡ false
      → contains j (keys (delete k m)) ≡ false
  unfolding delete contains
  contains-keys-delete k j [] h = refl
  contains-keys-delete k j ((i, w) ∷ m) h = ground (arith, contains-keys-delete k j m)

  pub delete-IsDistinct :
      (k : String) (m : List (String × V)) → IsDistinct (keys m) → IsDistinct (keys (delete k m))
  unfolding delete
  delete-IsDistinct k [] h = tt
  delete-IsDistinct k ((i, w) ∷ m) h =
      ground (arith, delete-IsDistinct k m h.1, contains-keys-delete k i m h.0)

pub contains-add :
    (x y : String) (s : List String)
    → contains y (add x s) ≡ (if x == y then true else contains y s)
unfolding contains add
contains-add x y [] = ground arith
contains-add x y (z ∷ s) = ground (arith, contains-add x y s, eq_iff z x, eq_iff z y, eq_iff x y)

pub add-IsDistinct : (x : String) (s : List String) → IsDistinct s → IsDistinct (add x s)
unfolding contains add
add-IsDistinct x [] h = (refl, tt)
add-IsDistinct x (z ∷ s) h =
    ground (arith, add-IsDistinct x s h.1, contains-add x z s, eq_iff z x, eq_iff x z)

pub contains-drop :
    (x y : String) (s : List String)
    → IsDistinct s
    → contains y (drop x s) ≡ (if x == y then false else contains y s)
unfolding contains drop
contains-drop x y [] h = ground arith
contains-drop x y (z ∷ s) h =
    ground (arith, contains-drop x y s h.1, eq_iff z x, eq_iff z y, eq_iff x y)

pub drop-IsDistinct : (x : String) (s : List String) → IsDistinct s → IsDistinct (drop x s)
unfolding drop
drop-IsDistinct x [] h = tt
drop-IsDistinct x (z ∷ s) h =
    ground (arith, drop-IsDistinct x s h.1, contains-drop x z s h.1, eq_iff x z, eq_iff z x)
