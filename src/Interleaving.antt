-- ===== src/Interleaving.antt =====
-- Handlers of services/hub-api that are under way at the same time. JavaScript runs one handler from one
-- await to the next, and then perhaps another one. Here a handler can be overtaken at each of its calls,
-- also at those that it does not await, so every order of the program is one of these.
pub mod Handlers
pub mod Services
pub mod Requests
pub mod Alone
pub mod Served
pub mod Safety
pub mod Challenges
pub mod Issuing
pub mod Bindings
pub mod Serving
pub mod Schedule
use troofai_mvp.Prelude.{String, ◌≡◌, refl, List, [], ◌∷◌}
use troofai_mvp.Platform.{Platform}
use troofai_mvp.Exec.{Result, ok, thrown, Exception}
use troofai_mvp.World.{World, Hub}

-- What is left of a handler: a result, or a call and what comes after it.
pub data Thread (p : Platform) (A : Type 0) : Type 1 where
  done : Result A → Thread p A
  step : {X : Type 0} → Hub p X → (Result X → Thread p A) → Thread p A

module _ {p : Platform} {A : Type 0} where
  abbrev pub call : Hub p A → Thread p A
  call m = step m done

  abbrev pub return : A → Thread p A
  return a = done (ok a)

  -- The handler when nothing overtakes it.
  abbrev pub run : Thread p A → Hub p A
  run (done r) w = (r, w)
  run (step m k) w = let (r, v) = m w in run (k r) v

module _ {p : Platform} {A B : Type 0} where
  infixl 5 ◌>>=◌ ◌>>◌
  abbrev pub ◌>>=◌ : Thread p A → (A → Thread p B) → Thread p B
  done (ok a) >>= f = f a
  done (thrown e) >>= f = done (thrown e)
  step m k >>= f = step m λ r. k r >>= f

  abbrev pub ◌>>◌ : Thread p A → Thread p B → Thread p B
  t >> u = t >>= λ _. u

  -- A handler whose exceptions are caught.
  abbrev pub catching : (Result A → B) → Thread p A → Thread p B
  catching f (done r) = done (ok (f r))
  catching f (step m k) = step m λ r. catching f (k r)
