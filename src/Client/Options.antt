-- ===== src/Client/Options.antt =====
-- The order in which app/nitris/client.py tries the options of the portal's dropdowns.
use updatednitr.Prelude.{
  ℕ, suc, ◌-◌, Bool, true, false, not, ◌&&◌, ◌||◌, Option, none, some, List, [], ◌∷◌, ◌++◌, keep,
  max, leb, if◌then◌else◌, ◌==◌, nat_eq, text_eq, Text, codes, lower, length, is_digit, number,
  has_text,
}

-- A value and its text.
abbrev pub Choice : Type 0
Choice = Text × Text

abbrev pub moved : Text → List Choice → List Choice
moved preferred options =
    keep (λ o. o.0 == preferred) options ++ keep (λ o. not (o.0 == preferred)) options

unfoldable pub prioritize : List Choice → Option Text → List Choice
prioritize options none = options
prioritize options (some []) = options
prioritize options (some (c ∷ s)) = moved (c ∷ s) options

-- _current_semester_type, by the month.
unfoldable pub current_semester_type : ℕ → Text
current_semester_type month = if leb 7 month && leb month 12 then codes "Autumn" else codes "Spring"

unfoldable pub current_ay_start_year : (year month : ℕ) → ℕ
current_ay_start_year year month = if leb 7 month then year else year - 1

-- The first match of `\d{4}` in a text, as a number.
unfoldable pub first_year : Text → Option ℕ
unfolding number
first_year (a ∷ b ∷ c ∷ d ∷ s) =
    let later = first_year (b ∷ c ∷ d ∷ s) in
    if is_digit a && is_digit b && is_digit c && is_digit d
    then some (number 0 (a ∷ b ∷ c ∷ d ∷ []))
    else later
first_year _ = none

-- The greatest of the years that `\d{4}` finds in a text, one after the other; 0 if there is none.
-- `left` is at least the length of the text.
unfoldable pub latest_year : (left : ℕ) → Text → ℕ
unfolding number
latest_year (suc left) (a ∷ b ∷ c ∷ d ∷ s) =
    let found = max (number 0 (a ∷ b ∷ c ∷ d ∷ [])) (latest_year left s) in
    let later = latest_year left (b ∷ c ∷ d ∷ s) in
    if is_digit a && is_digit b && is_digit c && is_digit d then found else later
latest_year _ _ = 0

-- The stable sort by a key, the greatest first: sort(key=…, reverse=True).
unfoldable pub insert_by_key : (Choice → ℕ) → Choice → List Choice → List Choice
insert_by_key key o [] = o ∷ []
insert_by_key key o (x ∷ xs) =
    let rest = insert_by_key key o xs in if leb (key x) (key o) then o ∷ x ∷ xs else x ∷ rest

unfoldable pub sort_by_key : (Choice → ℕ) → List Choice → List Choice
unfolding insert_by_key
sort_by_key key [] = []
sort_by_key key (o ∷ os) = insert_by_key key o (sort_by_key key os)

abbrev pub has_year : Choice → Bool
unfolding first_year
has_year o = elim (first_year o.1) [ none ↦ false | some y ↦ true ]

-- The year of an option that has one.
abbrev pub year_of : Choice → ℕ
unfolding first_year
year_of o = elim (first_year o.1) [ none ↦ 0 | some y ↦ y ]

unfoldable pub get_sorted_academic_years : (current_start_year : ℕ) → List Choice → List Choice
unfolding sort_by_key first_year
get_sorted_academic_years current_start_year options =
    let valid_years = keep has_year options in
    keep (λ o. year_of o == current_start_year) valid_years
    ++ sort_by_key year_of (keep (λ o. not (year_of o == current_start_year)) valid_years)

-- The three groups of _get_prioritized_sessions.
abbrev pub is_preferred : Text → Choice → Bool
is_preferred [] o = false
is_preferred (c ∷ s) o = has_text (lower (c ∷ s)) (lower o.1)

abbrev pub names_semester : Choice → Bool
names_semester o = has_text (codes "spring") (lower o.1) || has_text (codes "autumn") (lower o.1)

abbrev pub session_year : Choice → ℕ
unfolding latest_year
session_year o = latest_year (length o.1) o.1

unfoldable pub get_prioritized_sessions : (preferred_semester : Text) → List Choice → List Choice
unfolding sort_by_key latest_year
get_prioritized_sessions preferred_semester options =
    let others = keep (λ o. not (is_preferred preferred_semester o)) options in
    sort_by_key session_year (keep (is_preferred preferred_semester) options)
    ++ (sort_by_key session_year (keep names_semester others)
        ++ sort_by_key session_year (keep (λ o. not (names_semester o)) others))

-- Without blanks, slashes and dashes, in lower case.
abbrev squeeze : Text → Text
squeeze s = keep (λ c. not (c == 32 || c == 47 || c == 45)) (lower s)

abbrev pub first_match : (Choice → Bool) → List Choice → Option Text
first_match test [] = none
first_match test (o ∷ os) = let rest = first_match test os in if test o then some o.0 else rest

abbrev last_value : Choice → List Choice → Text
last_value o [] = o.0
last_value o (x ∷ xs) = last_value x xs

abbrev fallback : List Choice → Text
fallback [] = []
fallback (o ∷ os) = last_value o os

-- _pick_option with fallback_idx = -1, as fetch_attendance calls it.
unfoldable pub pick_option : List Choice → (preferred : Text) → Text
pick_option options preferred =
    elim (first_match
      (λ o.
        has_text (squeeze preferred) (squeeze o.1) || has_text (squeeze o.1) (squeeze preferred))
      options) [
        | some v ↦ v
        | none ↦
            (elim (first_match
              (λ o.
                has_text (lower preferred) (lower o.1) || has_text (lower o.1) (lower preferred))
              options) [ some v ↦ v | none ↦ fallback options ])
      ]
