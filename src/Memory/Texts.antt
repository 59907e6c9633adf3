-- ===== src/Memory/Texts.antt =====
-- Objects and dates as texts that can be read back: a text in a frame has a mark before each
-- character and another one behind it, and a date is its binary digits, the lowest first.
use Prim.Native.Char.{Char, code}
use Prim.Native.String.{[], ◌∷◌}
use troofai_mvp.Prelude.{
  ℕ, zero, suc, ◌+◌, ◌*◌, ◌/◌, ◌%◌, ◌≤◌, String, ◌≡◌, refl, sym, ap, ◌∙◌, Bool, true, false, Option,
  none, some, arith, eqb, inl, inr, Bool-cases, if◌then◌else◌, ◌==◌, ==_of_ne,
}

abbrev next : Char
next = ">"

abbrev stop : Char
stop = "."

-- The framed text, and what follows.
unfoldable pub frame : String → String → String
frame [] rest = stop ∷ rest
frame (c ∷ s) rest = next ∷ (c ∷ frame s rest)

abbrev after : Char → Option (String × String) → Option (String × String)
after c none = none
after c (some (s, rest)) = some (c ∷ s, rest)

unfoldable pub unframe : String → Option (String × String)
unframe [] = none
unframe (m ∷ []) = if eqb (code m) (code stop) then some ([], []) else none
unframe (m ∷ (c ∷ s)) =
    let later = unframe s in if eqb (code m) (code stop) then some ([], c ∷ s) else after c later

pub unframe-frame : (s rest : String) → unframe (frame s rest) ≡ some (s, rest)
unfolding frame unframe
unframe-frame [] [] = refl
unframe-frame [] (c ∷ rest) = refl
unframe-frame (c ∷ s) rest = ap (after c) (unframe-frame s rest)

pub frame_nonempty : (s rest : String) → (frame s rest == "") ≡ false
unfolding frame
frame_nonempty [] rest = ==_of_ne _ _ (λ e. cc e)
frame_nonempty (c ∷ s) rest = ==_of_ne _ _ (λ e. cc e)

abbrev digit : Bool → String → String
digit true s = "0" ∷ s
digit false s = "1" ∷ s

unfoldable pub bits_from : ℕ → ℕ → String
bits_from zero n = []
bits_from (suc fuel) n = elim (eqb n 0) [
  | true ↦ []
  | false ↦ digit (eqb (n % 2) 0) (bits_from fuel (n / 2))
]

-- A number has at most as many digits as one more than itself.
unfoldable pub bits : ℕ → String
unfolding bits_from
bits n = bits_from (suc n) n

unfoldable pub value : String → ℕ
value [] = 0
value (c ∷ s) = (if eqb (code c) 48 then 0 else 1) + 2 * value s

bits_null : (fuel n : ℕ) → eqb n 0 ≡ true → bits_from (suc fuel) n ≡ []
unfolding bits_from
bits_null fuel n null =
    ap (λ b. elim b [ true ↦ [] | false ↦ digit (eqb (n % 2) 0) (bits_from fuel (n / 2)) ]) null

bits_more :
    (fuel n : ℕ)
    → eqb n 0 ≡ false
    → bits_from (suc fuel) n ≡ digit (eqb (n % 2) 0) (bits_from fuel (n / 2))
unfolding bits_from
bits_more fuel n more =
    ap (λ b. elim b [ true ↦ [] | false ↦ digit (eqb (n % 2) 0) (bits_from fuel (n / 2)) ]) more

value-digit : (b : Bool) (s : String) → value (digit b s) ≡ (if b then 0 else 1) + 2 * value s
unfolding value
value-digit true s = refl
value-digit false s = refl

value-bits_from : (fuel n : ℕ) → n ≤ fuel → value (bits_from fuel n) ≡ n
unfolding value bits_from
value-bits_from zero n h = let none_left : n ≡ 0 = omega arith in sym none_left
value-bits_from (suc fuel) n h = elim (Bool-cases (eqb n 0)) [
  | inl null ↦ ap value (bits_null fuel n null) ∙ ground (arith, null)
  | inr more ↦
      let small : n / 2 ≤ fuel = ground (arith, more) in
      ap value (bits_more fuel n more)
      ∙ value-digit (eqb (n % 2) 0) (bits_from fuel (n / 2))
      ∙ ap (λ v. (if eqb (n % 2) 0 then 0 else 1) + 2 * v) (value-bits_from fuel (n / 2) small)
      ∙ ground arith
]

pub value-bits : (n : ℕ) → value (bits n) ≡ n
unfolding bits
value-bits n = value-bits_from (suc n) n (omega arith)
