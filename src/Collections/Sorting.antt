-- ===== src/Collections/Sorting.antt =====
-- `Array.prototype.sort` by a numeric key, which keeps the order of rows with the same key.
use mathlib.Core.List.{Permᴰ}
use troofai_mvp.Prelude.{
  ℕ, ◌≡◌, refl, Bool, true, false, List, [], ◌∷◌, All, arith, leb, if◌then◌else◌, Bool-cases, inl,
  inr,
}
use troofai_mvp.Platform.Order.{Direction, asc, desc, Before, IsOrdered}

abbrev pub leads : Direction → ℕ → ℕ → Bool
leads asc a b = leb a b
leads desc a b = leb b a

leads-Before : (d : Direction) (a b : ℕ) → leads d a b ≡ true → Before d a b
leads-Before asc a b e = ground arith
leads-Before desc a b e = ground arith

not_leads-Before : (d : Direction) (a b : ℕ) → leads d a b ≡ false → Before d b a
not_leads-Before asc a b e = ground arith
not_leads-Before desc a b e = ground arith

Before-trans : (d : Direction) (a b c : ℕ) → Before d a b → Before d b c → Before d a c
Before-trans asc a b c h k = omega (arith, h, k)
Before-trans desc a b c h k = omega (arith, h, k)

Permᴰ-refl : {A : Type 0} (l : List A) → Permᴰ l l
Permᴰ-refl [] = Permᴰ.nil
Permᴰ-refl (x ∷ xs) = Permᴰ.cons refl (Permᴰ-refl xs)

module _ {Row : Type 0} (d : Direction) (key : Row → ℕ) where
  unfoldable pub place : Row → List Row → List Row
  place x [] = x ∷ []
  place x (y ∷ ys) =
      let rest = place x ys in if leads d (key x) (key y) then x ∷ y ∷ ys else y ∷ rest

  unfoldable pub in_order : List Row → List Row
  in_order [] = []
  in_order (x ∷ xs) = place x (in_order xs)

  place-Perm : (x : Row) (ys : List Row) → Permᴰ (place x ys) (x ∷ ys)
  unfolding place
  place-Perm x [] = Permᴰ-refl (x ∷ [])
  place-Perm x (y ∷ ys) = elim (Bool-cases (leads d (key x) (key y))) [
    | inl e ↦ rw e (Permᴰ-refl (x ∷ y ∷ ys))
    | inr e ↦ rw e (Permᴰ.trans (Permᴰ.cons refl (place-Perm x ys)) (Permᴰ.swap refl refl))
  ]

  pub in_order-Perm : (xs : List Row) → Permᴰ (in_order xs) xs
  unfolding in_order
  in_order-Perm [] = Permᴰ.nil
  in_order-Perm (x ∷ xs) =
      Permᴰ.trans (place-Perm x (in_order xs)) (Permᴰ.cons refl (in_order-Perm xs))

  All-place : (P : Row → Type 0) (x : Row) (ys : List Row) → P x → All P ys → All P (place x ys)
  unfolding place
  All-place P x [] h k = (h, tt)
  All-place P x (y ∷ ys) h (k, ks) = elim (Bool-cases (leads d (key x) (key y))) [
    | inl e ↦ rw e (h, (k, ks))
    | inr e ↦ rw e (k, All-place P x ys h ks)
  ]

  weaken :
      (x y : Row) (ys : List Row)
      → Before d (key x) (key y)
      → All (λ z. Before d (key y) (key z)) ys
      → All (λ z. Before d (key x) (key z)) ys
  weaken x y [] b h = tt
  weaken x y (z ∷ ys) b (h, hs) = (Before-trans d (key x) (key y) (key z) b h, weaken x y ys b hs)

  place-IsOrdered : (x : Row) (ys : List Row) → IsOrdered d key ys → IsOrdered d key (place x ys)
  unfolding place
  place-IsOrdered x [] h = (tt, tt)
  place-IsOrdered x (y ∷ ys) (h, hs) = elim (Bool-cases (leads d (key x) (key y))) [
    | inl e ↦ let b = leads-Before d (key x) (key y) e in rw e ((b, weaken x y ys b h), (h, hs))
    | inr e ↦ rw e (
      All-place (λ z. Before d (key y) (key z)) x ys (not_leads-Before d (key x) (key y) e) h,
      place-IsOrdered x ys hs,
    )
  ]

  pub in_order-IsOrdered : (xs : List Row) → IsOrdered d key (in_order xs)
  unfolding in_order
  in_order-IsOrdered [] = tt
  in_order-IsOrdered (x ∷ xs) = place-IsOrdered x (in_order xs) (in_order-IsOrdered xs)
