-- ===== src/Interleaving/Safety.antt =====
-- Handlers that keep the state sound whatever other handlers do between their calls, as long as those
-- keep it sound too and undo nothing.
use troofai_mvp.Prelude.{◌≡◌, refl}
use troofai_mvp.Platform.{Platform}
use troofai_mvp.Exec.{Result, ok, thrown}
use troofai_mvp.World.{World, Hub}
use troofai_mvp.Integrity.{IsSound, Extends, Extends-refl, Extends-trans, Keeps}
use troofai_mvp.Interleaving.{Thread, done, step, call, return, ◌>>=◌, catching}

module _ (p : Platform) where
  -- From any sound state that the others make of `w`, the next call keeps the state sound and undoes
  -- nothing, and so on for what is left after it.
  unfoldable pub Safe : {A : Type 0} → Thread p A → World p → Type 0
  Safe (done r) w = Unit {0}
  Safe (step m k) w =
      (u : World p)
      → Extends p w u
      → IsSound p u
      → (IsSound p (m u).1 × Extends p u (m u).1) × Safe (k (m u).0) (m u).1

  pub Safe-Extends :
      {A : Type 0} (t : Thread p A) (w v : World p) → Extends p w v → Safe t w → Safe t v
  unfolding Safe
  Safe-Extends (done r) w v x h = tt
  Safe-Extends (step m k) w v x h = λ u y s. h u (Extends-trans p w v u x y) s

  -- The same, as a rule can be stated of it.
  pub record Guarded {A : Type 0} (t : Thread p A) (w : World p) : Type 0 where
    pub at : Safe t w

  pub Guarded-return : {A : Type 0} (a : A) (w : World p) → Guarded (return a) w
  unfolding Safe
  Guarded-return a w = record { at = tt }

  pub Guarded-call :
      {A : Type 0} (m : Hub p A) (w : World p)
      → ((u : World p) → Extends p w u → Keeps p m u)
      → Guarded (call m) w
  unfolding Safe
  Guarded-call m w h = record { at = λ u x s. ((h u x).at s, tt) }

  -- After a call, its result is known.
  pub Guarded-step :
      {X A : Type 0} (m : Hub p X) (k : X → Thread p A) (w : World p)
      → ((u : World p) → Extends p w u → Keeps p m u)
      → ((a : X) (u v : World p)
          → Extends p w u
          → IsSound p u
          → m u ≡ (ok a, v)
          → Extends p u v
          → Guarded (k a) v)
      → Guarded (call m >>= k) w
  unfolding Safe
  Guarded-step {X} {A} m k w h g = record {
    at = λ u x s. let kept = (h u x).at s in (kept, rest u x s (m u).0 (m u).1 refl kept.1);
  }
    where
      rest :
          (u : World p)
          → Extends p w u
          → IsSound p u
          → (r : Result X) (v : World p) → m u ≡ (r, v)
          → Extends p u v
          → Safe (done r >>= k) v
      rest u x s (ok a) v e y = (g a u v x s e y).at
      rest u x s (thrown e) v same y = tt

  -- After several calls, only that nothing is undone.
  pub Guarded-bind :
      {A B : Type 0} (t : Thread p A) (f : A → Thread p B) (w : World p)
      → Guarded t w
      → ((a : A) (v : World p) → Extends p w v → Guarded (f a) v)
      → Guarded (t >>= f) w
  unfolding Safe
  Guarded-bind {A} {B} t f w h g = record { at = go t w h.at g }
    where
      go :
          (t : Thread p A) (w : World p)
          → Safe t w
          → ((a : A) (v : World p) → Extends p w v → Guarded (f a) v)
          → Safe (t >>= f) w
      go (done (ok a)) w h g = (g a w (Extends-refl p w)).at
      go (done (thrown e)) w h g = tt
      go (step m k) w h g = λ u x s.
          let (kept, later) = h u x s in
          (
            kept,
            go (k (m u).0) (m u).1 later
                λ a v y. g a v (Extends-trans p w u v x (Extends-trans p u (m u).1 v kept.1 y)),
          )

  pub Guarded-catching :
      {A B : Type 0} (f : Result A → B) (t : Thread p A) (w : World p)
      → Guarded t w
      → Guarded (catching f t) w
  unfolding Safe
  Guarded-catching {A} f t w h = record { at = go t w h.at }
    where
      go : (t : Thread p A) (w : World p) → Safe t w → Safe (catching f t) w
      go (done r) w h = tt
      go (step m k) w h =
          λ u x s. let (kept, later) = h u x s in (kept, go (k (m u).0) (m u).1 later)
