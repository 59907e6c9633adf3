-- ===== src/Memory/Rows.antt =====
-- A table as a list of rows, the first row of an id being the one that counts.
use mathlib.Core.List.{Memᴰ}
use troofai_mvp.Prelude.{
  String, ◌≡◌, refl, sym, ◌∙◌, ap, Bool, true, false, Option, none, some, List, [], ◌∷◌, arith,
  length, All, keep, count, length-keep, count_mono, ◌==◌, eq_iff, eq_refl, if◌then◌else◌,
  Bool-cases, inl, inr, Option-cases,
}
use troofai_mvp.Platform.{Table, KeepsId}
use troofai_mvp.Collections.Sorting.{in_order, in_order-Perm, in_order-IsOrdered}

module _ {Row : Type 0} (id : Row → String) where
  unfoldable pub find : String → List Row → Option Row
  find k [] = none
  find k (r ∷ rs) = if id r == k then some r else find k rs

  unfoldable pub without : String → List Row → List Row
  without k [] = []
  without k (r ∷ rs) = let rest = without k rs in if id r == k then rest else r ∷ rest

  unfoldable pub many : (Row → Bool) → List Row → List Row
  many p [] = []
  many p (r ∷ rs) = let rest = without (id r) (many p rs) in if p r then r ∷ rest else rest

  unfoldable pub first : List Row → Option Row
  first [] = none
  first (r ∷ rs) = some r

  unfoldable pub insert : Row → List Row → Option (List Row)
  insert r rs = elim (find (id r) rs) [ none ↦ some (r ∷ rs) | some _ ↦ none ]

  abbrev behind : Row → Option (Row × List Row) → Option (Row × List Row)
  behind r none = none
  behind r (some (x, rs)) = some (x, r ∷ rs)

  unfoldable pub change : String → (Row → Row) → List Row → Option (Row × List Row)
  change k f [] = none
  change k f (r ∷ rs) = if id r == k then some (f r, f r ∷ rs) else behind r (change k f rs)

  find_id : (k : String) (r : Row) (rs : List Row) → find k rs ≡ some r → id r ≡ k
  unfolding find
  find_id k r [] e = ground arith
  find_id k r (x ∷ rs) e = ground (arith, eq_iff (id x) k, find_id k r rs)

  find-insert :
      (r : Row) (t t' : List Row) (k : String)
      → insert r t ≡ some t'
      → find k t' ≡ (if id r == k then some r else find k t)
  unfolding insert find
  find-insert r t t' k e = ground arith

  insert_fresh :
      (r : Row) (t : List Row) → find (id r) t ≡ none → (t' : List Row) × (insert r t ≡ some t')
  unfolding insert
  insert_fresh r t e = (r ∷ t, ground arith)

  insert_taken : (r : Row) (t t' : List Row) → insert r t ≡ some t' → find (id r) t ≡ none
  unfolding insert
  insert_taken r t t' e = ground arith

  find-change :
      (k j : String) (f : Row → Row) (r : Row) (t t' : List Row)
      → KeepsId id f
      → change k f t ≡ some (r, t')
      → find j t' ≡ (if k == j then some r else find j t)
  unfolding change find
  find-change k j f r [] t' keeps e = ground arith
  find-change k j f r (x ∷ t) t' keeps e = elim (Option-cases (change k f t)) [
    | inl missed ↦ ground (arith, eq_iff (id x) k, eq_iff (id x) j, eq_iff k j, keeps x)
    | inr (a, done) ↦ ground (
      arith,
      done,
      eq_iff (id x) k,
      eq_iff (id x) j,
      eq_iff k j,
      keeps x,
      find-change k j f a.0 t a.1 keeps done,
    )
  ]

  change_missing :
      (k : String) (f : Row → Row) (t : List Row) → find k t ≡ none → change k f t ≡ none
  unfolding change find
  change_missing k f [] e = refl
  change_missing k f (x ∷ t) e = ground (arith, change_missing k f t)

  change_found :
      (k : String) (f : Row → Row) (r : Row) (t : List Row)
      → find k t ≡ some r
      → (t' : List Row) × (change k f t ≡ some (f r, t'))
  unfolding change find
  change_found k f r [] e = absurd (cc e)
  change_found k f r (x ∷ t) e = elim (Bool-cases (id x == k)) [
    | inl hit ↦ (f x ∷ t, ground arith)
    | inr miss ↦
        let (t', done) = change_found k f r t (ground arith) in (x ∷ t', rw (miss, done) refl)
  ]

  without-All :
      (P : Row → Type 0) (k : String) (rs : List Row)
      → All P rs
      → All (λ r. P r × ((k == id r) ≡ false)) (without k rs)
  unfolding without
  without-All P k [] h = tt
  without-All P k (x ∷ rs) h =
      ground (arith, without-All P k rs h.1, eq_iff (id x) k, eq_iff k (id x))

  abbrev Fits : (Row → Bool) → List Row → Row → Type 0
  Fits p t r = (find (id r) t ≡ some r) × (p r ≡ true)

  Fits-behind :
      (p : Row → Bool) (x : Row) (t rs : List Row)
      → All (λ r. Fits p t r × ((id x == id r) ≡ false)) rs
      → All (Fits p (x ∷ t)) rs
  unfolding find
  Fits-behind p x t [] h = tt
  Fits-behind p x t (r ∷ rs) h = ((rw (h.0.1) h.0.0.0, h.0.0.1), Fits-behind p x t rs h.1)

  many_sound : (p : Row → Bool) (t : List Row) → All (Fits p t) (many p t)
  unfolding many find
  many_sound p [] = tt
  many_sound p (x ∷ t) =
      let later =
        Fits-behind p x t (without (id x) (many p t))
          (without-All (Fits p t) (id x) (many p t) (many_sound p t)) in
      elim (Bool-cases (p x)) [
        | inl hit ↦ rw hit ((rw (eq_refl (id x)) refl, hit), later)
        | inr miss ↦ rw miss later
      ]

  mem-without :
      (k : String) (r : Row) (rs : List Row)
      → (id r == k) ≡ false
      → Memᴰ r rs
      → Memᴰ r (without k rs)
  unfolding without
  mem-without k r [] h m = elim m [ ]
  mem-without k r (x ∷ rs) h (Memᴰ.head e) = rw (rw e at h) (Memᴰ.head e)
  mem-without k r (x ∷ rs) h (Memᴰ.tail m) = elim (Bool-cases (id x == k)) [
    | inl hit ↦ rw hit (mem-without k r rs h m)
    | inr miss ↦ rw miss (Memᴰ.tail (mem-without k r rs h m))
  ]

  many_complete :
      (p : Row → Bool) (k : String) (r : Row) (t : List Row)
      → find k t ≡ some r
      → p r ≡ true
      → Memᴰ r (many p t)
  unfolding many find
  many_complete p k r [] e h = absurd (cc e)
  many_complete p k r (x ∷ t) e h = elim (Bool-cases (id x == k)) [
    | inl hit ↦ let same : r ≡ x = ground arith in rw (ap p (sym same) ∙ h) (Memᴰ.head same)
    | inr miss ↦
        let found : find k t ≡ some r = ground arith in
        let other : (id r == id x) ≡ false =
          ground (arith, find_id k r t found, eq_iff (id x) k, eq_iff (id r) (id x)) in
        let later = mem-without (id x) r (many p t) other (many_complete p k r t found h) in
        elim (Bool-cases (p x)) [ inl hit ↦ rw hit (Memᴰ.tail later) | inr out ↦ rw out later ]
  ]

  first-many_sound :
      (p : Row → Bool) (r : Row) (t : List Row) → first (many p t) ≡ some r → Fits p t r
  unfolding first
  first-many_sound p r t e = head_of (many p t) (many_sound p t) e
    where
      head_of : (rs : List Row) → All (Fits p t) rs → first rs ≡ some r → Fits p t r
      head_of [] h e = absurd (cc e)
      head_of (x ∷ rs) h e = ground arith

  first-many_complete :
      (p : Row → Bool) (k : String) (r : Row) (t : List Row)
      → first (many p t) ≡ none
      → find k t ≡ some r
      → p r ≡ false
  unfolding first
  first-many_complete p k r t e found = elim (Bool-cases (p r)) [
    | inl hit ↦ absurd (none_left (many p t) e (many_complete p k r t found hit))
    | inr out ↦ out
  ]
    where
      none_left : (rs : List Row) → first rs ≡ none → Memᴰ r rs → ⊥
      none_left [] e m = elim m [ ]
      none_left (x ∷ rs) e m = cc e

  keep-without :
      (p : Row → Bool) (k : String) (rs : List Row) → keep p (without k rs) ≡ without k (keep p rs)
  unfolding without
  keep-without p k [] = refl
  keep-without p k (r ∷ rs) = ground (arith, keep-without p k rs)

  many-keep : (p : Row → Bool) (t : List Row) → many p t ≡ keep p (many (λ _. true) t)
  unfolding many
  many-keep p [] = refl
  many-keep p (r ∷ rs) = ground (arith, many-keep p rs, keep-without p (id r) (many (λ _. true) rs))

  length-many : (p : Row → Bool) (t : List Row) → count p (many (λ _. true) t) ≡ length (many p t)
  length-many p t = rw (many-keep p t) (sym (length-keep p (many (λ _. true) t)))

  unfoldable pub list_table : Table Row id
  unfolding find many first insert change without find-insert insert_fresh insert_taken find-change
      change_found change_missing first-many_sound first-many_complete many_sound many_complete
      Fits-behind without-All find_id mem-without keep-without many-keep length-many
  list_table = record {
    Rows = List Row;
    find_unique = find;
    find_first = λ p t. first (many p t);
    find_many = many;
    find_ordered = λ p d key t. in_order d key (many p t);
    number = λ p t. count p (many (λ _. true) t);
    create = insert;
    update = change;
    find-create = find-insert;
    create_fresh = insert_fresh;
    create_taken = insert_taken;
    find-update = find-change;
    update_found = change_found;
    update_missing = change_missing;
    find_first_sound = first-many_sound;
    find_first_complete = first-many_complete;
    find_many_sound = many_sound;
    find_many_complete = many_complete;
    find_ordered-Perm = λ p d key t. in_order-Perm d key (many p t);
    find_ordered-IsOrdered = λ p d key t. in_order-IsOrdered d key (many p t);
    number-length = length-many;
    number_mono = λ p q t h. count_mono p q (many (λ _. true) t) h;
  }
