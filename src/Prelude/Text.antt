-- ===== src/Prelude/Text.antt =====
-- Lines joined by newlines, as in `[...].join('\n')`, and numbers printed in decimal.
use Prim.Native.Char.{Char, code}
use Prim.Native.Nat.{ℕ, zero, suc, ◌+◌, ◌/◌, ◌%◌}
use Prim.Native.String.{String, [], ◌∷◌, ◌++◌, slice}
use mathlib.Core.Path.{◌≡◌, refl, ap, ap₂, sym, ◌∙◌}
use mathlib.Core.Logic.{◌≢◌}
use mathlib.Core.List as L
use text.Mathlib.TextLemmas.{
  nil-append, cons-append, head-eq_of_cons-eq, tail-eq_of_cons-eq, append_cancel_left,
}
use mathlib.Core.Bool.{Bool, true, false}
use native.Mathlib.Omega.{arith}
use troofai_mvp.Prelude.Tests.{ltb, eqb, if◌then◌else◌}
use troofai_mvp.Prelude.Lists.{length, All}

-- `lines.join('\n')`
unfoldable pub join_lines : L.List String → String
join_lines L.[] = ""
join_lines (L.◌∷◌ s L.[]) = s
join_lines (L.◌∷◌ s (L.◌∷◌ t rest)) = s ++ ("\n" ++ join_lines (L.◌∷◌ t rest))

-- `s.slice(0, n)`
abbrev pub first_chars : ℕ → String → String
first_chars zero s = []
first_chars (suc n) [] = []
first_chars (suc n) (c ∷ s) = c ∷ first_chars n s

-- Has the text n characters or more?
abbrev pub has_chars : ℕ → String → Bool
has_chars zero s = true
has_chars (suc n) [] = false
has_chars (suc n) (c ∷ s) = has_chars n s

-- `s.startsWith(t)` and `s.includes(t)`
abbrev pub starts_with : String → String → Bool
starts_with s [] = true
starts_with [] (d ∷ t) = false
starts_with (c ∷ s) (d ∷ t) = if eqb (code c) (code d) then starts_with s t else false

abbrev pub includes : String → String → Bool
includes [] t = starts_with [] t
includes (c ∷ s) t = if starts_with (c ∷ s) t then true else includes s t

-- `type.replace(/_/g, ' ')`
abbrev pub spaced : String → String
spaced [] = []
spaced (c ∷ s) = (if eqb (code c) 95 then " " else c) ∷ spaced s

-- `name.split(' ').map(n => n[0]).join('')`: the first character of each word, where a word begins
-- after a space or, if the flag is set, at once.
abbrev initials_from : Bool → String → String
initials_from start [] = []
initials_from start (c ∷ s) =
    if eqb (code c) 32
    then initials_from true s
    else if start
    then c ∷ initials_from false s
    else initials_from false s

abbrev pub initials : String → String
initials name = initials_from true name

-- No newline occurs in the text.
abbrev pub IsOneLine : String → Type 0
IsOneLine [] = Unit
IsOneLine (c ∷ s) = (code c ≢ 10) × IsOneLine s

abbrev newline : Char
newline = "\n"

newline-append : (s : String) → "\n" ++ s ≡ newline ∷ s
newline-append s = rw (cons-append, nil-append)

-- The text before the first newline is determined, and so is the text after it.
split_first_line :
    (a b s t : String)
    → IsOneLine a
    → IsOneLine b
    → a ++ ("\n" ++ s) ≡ b ++ ("\n" ++ t)
    → (a ≡ b) × (s ≡ t)
split_first_line [] [] s t h k e = (refl, append_cancel_left "\n" s t (simp nil-append at e))
split_first_line [] (d ∷ b) s t h k e =
    absurd (
      k.0
        (sym (ap code (head-eq_of_cons-eq (simp (nil-append, newline-append, cons-append) at e)))))
split_first_line (c ∷ a) [] s t h k e =
    absurd
      (h.0 (ap code (head-eq_of_cons-eq (simp (nil-append, newline-append, cons-append) at e))))
split_first_line (c ∷ a) (d ∷ b) s t h k e =
    let whole : c ∷ (a ++ ("\n" ++ s)) ≡ d ∷ (b ++ ("\n" ++ t)) =
      sym (cons-append c a _) ∙ e ∙ cons-append d b _ in
    let (same, rest) = split_first_line a b s t h.1 k.1 (tail-eq_of_cons-eq whole) in
    (ap₂ ◌∷◌ (head-eq_of_cons-eq whole) same, rest)

-- Joined lines can be taken apart: lists of as many one-line texts that join to the same text are
-- the same list.
pub join_lines_injective :
    (xs ys : L.List String)
    → length xs ≡ length ys
    → All IsOneLine xs
    → All IsOneLine ys
    → join_lines xs ≡ join_lines ys
    → xs ≡ ys
unfolding join_lines
join_lines_injective L.[] L.[] n h k e = refl
join_lines_injective L.[] (L.◌∷◌ y ys) n h k e = absurd (omega arith)
join_lines_injective (L.◌∷◌ x xs) L.[] n h k e = absurd (omega arith)
join_lines_injective (L.◌∷◌ x L.[]) (L.◌∷◌ y L.[]) n h k e = ap (λ z. L.◌∷◌ z L.[]) e
join_lines_injective (L.◌∷◌ x L.[]) (L.◌∷◌ y (L.◌∷◌ y' ys)) n h k e = absurd (omega arith)
join_lines_injective (L.◌∷◌ x (L.◌∷◌ x' xs)) (L.◌∷◌ y L.[]) n h k e = absurd (omega arith)
join_lines_injective (L.◌∷◌ x (L.◌∷◌ x' xs)) (L.◌∷◌ y (L.◌∷◌ y' ys)) n h k e =
    let (same, rest) = split_first_line x y _ _ h.0 k.0 e in
    ap₂ L.◌∷◌ same (join_lines_injective (L.◌∷◌ x' xs) (L.◌∷◌ y' ys) (omega arith) h.1 k.1 rest)

digit : ℕ → String
digit d = slice "0123456789" d (d + 1)

show_from : ℕ → ℕ → String
show_from zero n = ""
show_from (suc fuel) n =
    let front = show_from fuel (n / 10) in if ltb n 10 then digit n else front ++ digit (n % 10)

-- A number in a template literal. A number has at most as many digits as one more than itself.
unfoldable pub show : ℕ → String
unfolding show_from digit
show n = show_from (suc n) n

show_some : show 1204 ≡ "1204"
unfolding show
show_some = refl
