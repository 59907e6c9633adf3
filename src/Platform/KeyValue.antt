-- ===== src/Platform/KeyValue.antt =====
-- The three commands of Redis that the hub sends. A time is the server's, in milliseconds; a time to
-- live is in seconds.
use troofai_mvp.Prelude.{
  ℕ, ◌+◌, ◌*◌, ◌≤◌, String, ◌≡◌, Option, none, some, ltb, ◌==◌, if◌then◌else◌,
}

pub record Redis : Type 1 where
  pub Db : Type 0
  -- SET key value
  pub set : String → String → Db → Db
  -- SET key value EX ttl, at a time
  pub set_ex : ℕ → String → String → ℕ → Db → Db
  -- GET key, at a time
  pub get : ℕ → String → Db → Option String
  -- DEL key
  pub del : String → Db → Db
  pub get-set :
      (now : ℕ) (k j v : String) (db : Db)
      → get now j (set k v db) ≡ (if k == j then some v else get now j db)
  -- An entry is there until its time to live has passed, and no longer.
  pub get-set_ex :
      (now later : ℕ) (k j v : String) (ttl : ℕ) (db : Db)
      → now ≤ later
      → get later j (set_ex now k v ttl db) ≡ (
          if k == j
          then (if ltb later (now + ttl * 1000) then some v else none)
          else get later j db)
  pub get-del :
      (now : ℕ) (k j : String) (db : Db)
      → get now j (del k db) ≡ (if k == j then none else get now j db)
