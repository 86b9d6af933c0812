-- ===== src/Prelude/Texts.antt =====
-- Texts that the program takes apart, as their code points. Letters, digits and white space are those
-- of ASCII, the only ones that the portal's labels and numbers have.
use Prim.Native.Nat.{ℕ, zero, suc, ◌+◌, ◌-◌, ◌*◌, ◌/◌, ◌%◌, ◌<◌}
use Prim.Native.Char.{code}
use Prim.Native.String.{String}
use mathlib.Core.Path.{◌≡◌}
use mathlib.Core.Logic.{◌↔◌}
use mathlib.Core.Bool.{Bool, true, false, ◌&&◌, ◌||◌}
use mathlib.Core.List.{List, [], ◌∷◌, ◌++◌, map, reverse}
use native.Mathlib.Omega.{arith}
use updatednitr.Prelude.Tests.{leb, ltb, if◌then◌else◌, nat_beq, nat_beq_iff}
use updatednitr.Prelude.Assoc.{Key}

abbrev pub Text : Type 0
Text = List ℕ

abbrev pub codes : String → Text
codes String.[] = []
codes (String.◌∷◌ c s) = code c ∷ codes s

abbrev pub is_space : ℕ → Bool
is_space c = (leb 9 c && leb c 13) || (leb 28 c && leb c 32)

abbrev pub is_digit : ℕ → Bool
is_digit c = leb 48 c && leb c 57

abbrev pub is_letter : ℕ → Bool
is_letter c = (leb 65 c && leb c 90) || (leb 97 c && leb c 122)

abbrev pub to_lower : ℕ → ℕ
to_lower c = if leb 65 c && leb c 90 then c + 32 else c

-- s.lower()
abbrev pub lower : Text → Text
lower = map to_lower

abbrev pub to_upper : ℕ → ℕ
to_upper c = if leb 97 c && leb c 122 then c - 32 else c

-- s.upper()
abbrev pub upper : Text → Text
upper = map to_upper

-- What is left of a text after the characters of a class at its front.
abbrev pub skip : (ℕ → Bool) → Text → Text
skip p [] = []
skip p (c ∷ s) = let rest = skip p s in if p c then rest else c ∷ s

-- The characters of a class at its front.
abbrev pub front : (ℕ → Bool) → Text → Text
front p [] = []
front p (c ∷ s) = let rest = front p s in if p c then c ∷ rest else []

-- s.strip()
abbrev pub strip : Text → Text
strip s = reverse (skip is_space (reverse (skip is_space s)))

abbrev pub text_beq : Text → Text → Bool
text_beq [] [] = true
text_beq [] (d ∷ t) = false
text_beq (c ∷ s) [] = false
text_beq (c ∷ s) (d ∷ t) = nat_beq c d && text_beq s t

pub text_beq_iff : (s t : Text) → (text_beq s t ≡ true) ↔ (s ≡ t)
text_beq_iff [] [] = ground arith
text_beq_iff [] (d ∷ t) = ground arith
text_beq_iff (c ∷ s) [] = ground arith
text_beq_iff (c ∷ s) (d ∷ t) = ground (arith, nat_beq_iff c d, text_beq_iff s t)

instance abbrev pub text_eq : Key Text
text_eq = record { same = text_beq; same_iff = text_beq_iff }

-- str(n), for a number of at most `fuel` digits.
unfoldable pub decimal : (fuel : ℕ) → ℕ → Text
decimal zero n = []
decimal (suc fuel) n =
    let before = decimal fuel (n / 10) in
    if ltb n 10 then (48 + n) ∷ [] else before ++ (48 + n % 10) ∷ []

-- The number that a text of digits stands for, from the left.
unfoldable pub number : ℕ → Text → ℕ
number acc [] = acc
number acc (c ∷ s) = number (acc * 10 + (c - 48)) s

pub decimal_year :
    (y : ℕ)
    → 999 < y
    → y < 10000
    → decimal 9 y
      ≡ (48 + y / 10 / 10 / 10) ∷ (48 + y / 10 / 10 % 10) ∷ (48 + y / 10 % 10) ∷ (48 + y % 10) ∷ []
unfolding decimal
decimal_year y lo hi = ground arith

-- s.startswith(p)
abbrev pub has_prefix : Text → Text → Bool
has_prefix [] s = true
has_prefix (c ∷ p) [] = false
has_prefix (c ∷ p) (d ∷ s) = nat_beq c d && has_prefix p s

-- `p in s`
unfoldable pub has_text : Text → Text → Bool
has_text p [] = has_prefix p []
has_text p (d ∷ s) = has_prefix p (d ∷ s) || has_text p s
