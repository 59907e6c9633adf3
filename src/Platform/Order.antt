-- ===== src/Platform/Order.antt =====
-- `orderBy` of the Prisma client on a column that holds a number: ascending or descending.
use mathlib.Core.List.{Memᴰ, Permᴰ}
use mathlib.Core.Path.{subst}
use troofai_mvp.Prelude.{ℕ, ◌≤◌, sym, ◌∙◌, List, [], ◌∷◌, All}

pub data Direction : Type 0 where
  asc desc : Direction

-- May the first come before the second?
abbrev pub Before : Direction → ℕ → ℕ → Type 0
Before asc a b = a ≤ b
Before desc a b = b ≤ a

-- Each row's key may come before the keys of the rows behind it.
abbrev pub IsOrdered : {Row : Type 0} → Direction → (Row → ℕ) → List Row → Type 0
IsOrdered d key [] = Unit
IsOrdered d key (r ∷ rs) = All (λ x. Before d (key r) (key x)) rs × IsOrdered d key rs

-- Lists with the same rows have the same members, and what holds along one holds along the other.
pub mem-Perm : {A : Type 0} {a : A} {xs ys : List A} → Permᴰ xs ys → Memᴰ a ys → Memᴰ a xs
mem-Perm Permᴰ.nil m = m
mem-Perm (Permᴰ.cons e h) (Memᴰ.head k) = Memᴰ.head (k ∙ sym e)
mem-Perm (Permᴰ.cons e h) (Memᴰ.tail m) = Memᴰ.tail (mem-Perm h m)
mem-Perm (Permᴰ.swap e f) (Memᴰ.head k) = Memᴰ.tail (Memᴰ.head (k ∙ sym f))
mem-Perm (Permᴰ.swap e f) (Memᴰ.tail (Memᴰ.head k)) = Memᴰ.head (k ∙ sym e)
mem-Perm (Permᴰ.swap e f) (Memᴰ.tail (Memᴰ.tail m)) = Memᴰ.tail (Memᴰ.tail m)
mem-Perm (Permᴰ.trans h k) m = mem-Perm h (mem-Perm k m)

pub All-Perm : {A : Type 0} (P : A → Type 0) {xs ys : List A} → Permᴰ xs ys → All P ys → All P xs
All-Perm P Permᴰ.nil h = h
All-Perm P (Permᴰ.cons e k) (h, hs) = (subst P (sym e) h, All-Perm P k hs)
All-Perm P (Permᴰ.swap e f) (h, (h', hs)) = (subst P (sym e) h', (subst P (sym f) h, hs))
All-Perm P (Permᴰ.trans j k) h = All-Perm P j (All-Perm P k h)
