-- ===== src/Exec.antt =====
-- Asynchronous methods that may throw. What was written before an exception stays written, so the
-- state comes back beside the exception too.
use troofai_mvp.Prelude.{String, ◌≡◌, refl, Option, none, some, arith}

-- What the hub's code throws, and what the client libraries throw at it.
pub data Exception : Type 0 where
  not_found bad_request unauthorized : String → Exception
  unique_violated foreign_key_violated record_missing : Exception
  type_error syntax_error : Exception

pub data Result {ℓ} (A : Type ℓ) : Type ℓ where
  ok : A → Result A
  thrown : Exception → Result A

abbrev pub Exec {ℓ κ} : Type ℓ → Type κ → Type (ℓ ⊔ κ)
Exec S A = S → Result A × S

module _ {ℓ κ} {S : Type ℓ} {A : Type κ} where
  abbrev pub pure : A → Exec S A
  pure a s = (ok a, s)

  abbrev pub throw : Exception → Exec S A
  throw e s = (thrown e, s)

  -- the value, or an exception in its place
  abbrev pub or_throw : Exception → Option A → Exec S A
  or_throw e none s = (thrown e, s)
  or_throw e (some a) s = (ok a, s)

module _ {ℓ κ ν} {S : Type ℓ} {A : Type κ} {B : Type ν} where
  abbrev pub continue : Result A → (A → Exec S B) → Exec S B
  continue (ok a) f s = f a s
  continue (thrown e) f s = (thrown e, s)

  infixl 5 ◌>>=◌ ◌>>◌
  abbrev pub ◌>>=◌ : Exec S A → (A → Exec S B) → Exec S B
  ◌>>=◌ m f s = let (r, s') = m s in continue r f s'

  abbrev pub ◌>>◌ : Exec S A → Exec S B → Exec S B
  m >> k = m >>= λ _. k

  -- A sequence that returns is two calls that return.
  pub >>=-eq-ok :
      (m : Exec S A) (f : A → Exec S B) (s s' : S) (b : B)
      → (m >>= f) s ≡ (ok b, s')
      → (a : A) × (t : S) × (m s ≡ (ok a, t)) × (f a t ≡ (ok b, s'))
  >>=-eq-ok m f s s' b e = go (m s).0 (m s).1 refl e
    where
      go :
          (r : Result A) (t : S)
          → m s ≡ (r, t)
          → continue r f t ≡ (ok b, s')
          → (a : A) × (t : S) × (m s ≡ (ok a, t)) × (f a t ≡ (ok b, s'))
      go (ok a) t same e = (a, t, same, e)
      go (thrown x) t same e = absurd (ground arith)
