-- ===== src/Platform/Database.antt =====
-- A table as the Prisma client shows it: rows with a unique text `id`.
use mathlib.Core.List.{Memᴰ, Permᴰ}
use troofai_mvp.Platform.Order.{Direction, IsOrdered}
use troofai_mvp.Prelude.{
  ℕ, ◌≤◌, String, ◌≡◌, Bool, true, false, Option, none, some, List, All, length, ◌==◌,
  if◌then◌else◌,
}

-- An update that leaves the primary key alone.
abbrev pub KeepsId : {Row : Type 0} → (Row → String) → (Row → Row) → Type 0
KeepsId {Row} id f = (r : Row) → id (f r) ≡ id r

pub record Table (Row : Type 0) (id : Row → String) : Type 1 where
  pub Rows : Type 0
  pub find_unique : String → Rows → Option Row
  pub find_first : (Row → Bool) → Rows → Option Row
  pub find_many : (Row → Bool) → Rows → List Row
  -- with `orderBy` on a numeric column: the same rows, in that order
  pub find_ordered : (Row → Bool) → Direction → (Row → ℕ) → Rows → List Row
  pub number : (Row → Bool) → Rows → ℕ
  -- `none` is the error for a key that is taken
  pub create : Row → Rows → Option Rows
  -- the row after the update; `none` is the error for a row that is not there
  pub update : String → (Row → Row) → Rows → Option (Row × Rows)
  pub find-create :
      (r : Row) (t t' : Rows) (k : String)
      → create r t ≡ some t'
      → find_unique k t' ≡ (if id r == k then some r else find_unique k t)
  pub create_fresh :
      (r : Row) (t : Rows) → find_unique (id r) t ≡ none → (t' : Rows) × (create r t ≡ some t')
  -- a key that is taken is an error
  pub create_taken : (r : Row) (t t' : Rows) → create r t ≡ some t' → find_unique (id r) t ≡ none
  pub find-update :
      (k j : String) (f : Row → Row) (r : Row) (t t' : Rows)
      → KeepsId id f
      → update k f t ≡ some (r, t')
      → find_unique j t' ≡ (if k == j then some r else find_unique j t)
  pub update_found :
      (k : String) (f : Row → Row) (r : Row) (t : Rows)
      → find_unique k t ≡ some r
      → (t' : Rows) × (update k f t ≡ some (f r, t'))
  pub update_missing :
      (k : String) (f : Row → Row) (t : Rows) → find_unique k t ≡ none → update k f t ≡ none
  pub find_first_sound :
      (p : Row → Bool) (r : Row) (t : Rows)
      → find_first p t ≡ some r
      → (find_unique (id r) t ≡ some r) × (p r ≡ true)
  pub find_first_complete :
      (p : Row → Bool) (k : String) (r : Row) (t : Rows)
      → find_first p t ≡ none
      → find_unique k t ≡ some r
      → p r ≡ false
  pub find_many_sound :
      (p : Row → Bool) (t : Rows)
      → All (λ r. (find_unique (id r) t ≡ some r) × (p r ≡ true)) (find_many p t)
  pub find_many_complete :
      (p : Row → Bool) (k : String) (r : Row) (t : Rows)
      → find_unique k t ≡ some r
      → p r ≡ true
      → Memᴰ r (find_many p t)
  pub find_ordered-Perm :
      (p : Row → Bool) (d : Direction) (key : Row → ℕ) (t : Rows)
      → Permᴰ (find_ordered p d key t) (find_many p t)
  pub find_ordered-IsOrdered :
      (p : Row → Bool) (d : Direction) (key : Row → ℕ) (t : Rows)
      → IsOrdered d key (find_ordered p d key t)
  pub number-length : (p : Row → Bool) (t : Rows) → number p t ≡ length (find_many p t)
  pub number_mono :
      (p q : Row → Bool) (t : Rows)
      → ((r : Row) → p r ≡ true → q r ≡ true)
      → number p t ≤ number q t
