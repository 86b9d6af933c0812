-- ===== src/AttendanceHealth/Numbers.antt =====
-- The numbers and patterns of the scraped records: _to_int and normalize_ltp of
-- app/services/attendance_health.py.
use updatednitr.Prelude.{
  ℕ, zero, suc, ◌+◌, ◌-◌, ◌*◌, Bool, true, false, ◌&&◌, Option, none, some, [], ◌∷◌, ◌++◌, ltb, leb,
  length, keep, if◌then◌else◌, ◌==◌, nat_eq, text_eq, Text, skip, front, strip, is_space, is_digit,
  number,
}

-- `negsuc n` is -(n + 1).
pub data ℤ : Type 0 where
  pos : ℕ → ℤ
  negsuc : ℕ → ℤ

abbrev pub pos_part : ℤ → ℕ
pos_part (pos n) = n
pos_part (negsuc n) = 0

abbrev pub neg_part : ℤ → ℕ
neg_part (pos n) = 0
neg_part (negsuc n) = suc n

abbrev pub ltb_ℤ : ℤ → ℤ → Bool
ltb_ℤ a b = ltb (pos_part a + neg_part b) (pos_part b + neg_part a)

abbrev pub leb_ℤ : ℤ → ℤ → Bool
leb_ℤ a b = leb (pos_part a + neg_part b) (pos_part b + neg_part a)

-- a - b, as an integer.
abbrev pub sub_ℕ : ℕ → ℕ → ℤ
sub_ℕ a b = if leb b a then pos (a - b) else negsuc (b - a - 1)

infixl 65 ◌-ℤ◌
unfoldable pub ◌-ℤ◌ : ℤ → ℤ → ℤ
a -ℤ b = sub_ℕ (pos_part a + neg_part b) (neg_part a + pos_part b)

-- The digits of an int() literal, with single underscores between digits; `none` is a ValueError.
-- `after_digit`: the character before is a digit.
unfoldable pub literal : (after_digit : Bool) → ℕ → Text → Option ℕ
literal true acc [] = some acc
literal false acc [] = none
literal after_digit acc (c ∷ s) =
    let digit = literal true (acc * 10 + (c - 48)) s in
    let underscore = literal false acc s in
    if is_digit c then digit else if c == 95 && after_digit then underscore else none

-- int(s), on a text without white space at its ends.
unfoldable pub int_of : Text → Option ℤ
unfolding literal
int_of [] = none
int_of (c ∷ s) =
    let negative = elim (literal false 0 s) as (λ _. Option ℤ) [
      | none ↦ none
      | some zero ↦ some (pos 0)
      | some (suc n) ↦ some (negsuc n)
    ] in
    let signed = elim (literal false 0 s) as (λ _. Option ℤ) [
      | none ↦ none
      | some n ↦ some (pos n)
    ] in
    let plain = elim (literal false 0 (c ∷ s)) as (λ _. Option ℤ) [
      | none ↦ none
      | some n ↦ some (pos n)
    ] in
    if c == 45 then negative else if c == 43 then signed else plain

-- int() of the digits of a text, or 0 if there are none.
unfoldable pub digits_only : Text → ℕ
unfolding number
digits_only s = number 0 (keep is_digit s)

-- _to_int(val)
unfoldable pub to_int : Option Text → ℤ
unfolding int_of digits_only
to_int none = pos 0
to_int (some val) = let s = strip val in elim (int_of s) [ some n ↦ n | none ↦ pos (digits_only s) ]

abbrev starts_dash : Text → Bool
starts_dash [] = false
starts_dash (c ∷ s) = c == 45

abbrev after_dash : Text → Text
after_dash [] = []
after_dash (c ∷ s) = s

-- The match of `(\d+)\s*-\s*(\d+)\s*-\s*(\d+)` at the front of a text. A class takes all it can, since
-- the next part never starts with a character of it.
unfoldable pub match_here : Text → Option (Text × Text × Text)
match_here s =
    let a = front is_digit s in
    let s1 = skip is_space (skip is_digit s) in
    let s2 = skip is_space (after_dash s1) in
    let b = front is_digit s2 in
    let s3 = skip is_space (skip is_digit s2) in
    let s4 = skip is_space (after_dash s3) in
    let c = front is_digit s4 in
    if leb 1 (length a) && starts_dash s1 && leb 1 (length b) && starts_dash s3 && leb 1 (length c)
    then some (a, b, c)
    else none

-- re.search: the first place where the pattern matches.
unfoldable pub search_ltp : Text → Option (Text × Text × Text)
unfolding match_here
search_ltp [] = none
search_ltp (c ∷ s) =
    let later = search_ltp s in elim (match_here (c ∷ s)) [ some m ↦ some m | none ↦ later ]

unfoldable pub normalize_ltp : Option Text → Option Text
unfolding search_ltp
normalize_ltp none = none
normalize_ltp (some raw) = elim (search_ltp raw) [
  | none ↦ none
  | some (a, b, c) ↦
      if length a == 1 && length b == 1 && length c == 1 then some (a ++ 45 ∷ b ++ 45 ∷ c) else none
]
