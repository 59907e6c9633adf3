-- ===== src/Memory/Entries.antt =====
-- Redis as an association list; the newest entry of a key counts.
use troofai_mvp.Prelude.{
  ℕ, ◌+◌, ◌*◌, ◌≤◌, String, ◌≡◌, refl, Option, none, some, List, [], ◌∷◌, arith, ltb, ◌==◌, eq_iff,
  if◌then◌else◌,
}
use troofai_mvp.Platform.{Redis}

pub record Entry : Type 0 where
  pub key : String
  pub value : String
  pub deadline : Option ℕ

unfoldable pub live : ℕ → Entry → Option String
live now e = elim e.deadline [
  | none ↦ some e.value
  | some d ↦ if ltb now d then some e.value else none
]

unfoldable pub get : ℕ → String → List Entry → Option String
get now k [] = none
get now k (e ∷ es) = if e.key == k then live now e else get now k es

unfoldable pub del : String → List Entry → List Entry
del k [] = []
del k (e ∷ es) = let rest = del k es in if e.key == k then rest else e ∷ rest

get-del :
    (now : ℕ) (k j : String) (es : List Entry)
    → get now j (del k es) ≡ (if k == j then none else get now j es)
unfolding get del
get-del now k j [] = ground arith
get-del now k j (e ∷ es) =
    ground (arith, get-del now k j es, eq_iff e.key k, eq_iff e.key j, eq_iff k j)

abbrev put : String → String → Option ℕ → List Entry → List Entry
put k v d es = record { key = k; value = v; deadline = d } ∷ es

get-put :
    (now : ℕ) (k j v : String) (es : List Entry)
    → get now j (put k v none es) ≡ (if k == j then some v else get now j es)
unfolding get live
get-put now k j v es = refl

get-put_ex :
    (now later : ℕ) (k j v : String) (ttl : ℕ) (es : List Entry)
    → now ≤ later
    → get later j (put k v (some (now + ttl * 1000)) es)
      ≡ (if k == j then (if ltb later (now + ttl * 1000) then some v else none) else get later j es)
unfolding get live
get-put_ex now later k j v ttl es h = refl

unfoldable pub list_redis : Redis
unfolding get del live get-put get-put_ex get-del
list_redis = record {
  Db = List Entry;
  set = λ k v. put k v none;
  set_ex = λ now k v ttl. put k v (some (now + ttl * 1000));
  get = get;
  del = del;
  get-set = get-put;
  get-set_ex = get-put_ex;
  get-del = get-del;
}
