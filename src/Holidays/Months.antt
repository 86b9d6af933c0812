-- ===== src/Holidays/Months.antt =====
-- The months that app/services/holidays_service.py steps through, and their labels.
use updatednitr.Prelude.{
  ℕ, zero, suc, ◌+◌, ◌-◌, Bool, ◌&&◌, ◌||◌, Option, none, some, [], ◌∷◌, ◌++◌, ltb, leb, length,
  if◌then◌else◌, ◌==◌, nat_eq, text_eq, Text, codes, lower, skip, front, is_space, is_letter,
  is_digit, decimal, number,
}
use updatednitr.Holidays.Pages.{HolidaysPage}

pub data Direction : Type 0 where
  prev next : Direction

-- calendar.month_name[m]
unfoldable pub month_name : ℕ → Text
month_name zero = []
month_name (suc zero) = codes "January"
month_name (suc (suc zero)) = codes "February"
month_name (suc (suc (suc zero))) = codes "March"
month_name (suc (suc (suc (suc zero)))) = codes "April"
month_name (suc (suc (suc (suc (suc zero))))) = codes "May"
month_name (suc (suc (suc (suc (suc (suc zero)))))) = codes "June"
month_name (suc (suc (suc (suc (suc (suc (suc zero))))))) = codes "July"
month_name (suc (suc (suc (suc (suc (suc (suc (suc zero)))))))) = codes "August"
month_name (suc (suc (suc (suc (suc (suc (suc (suc (suc zero))))))))) = codes "September"
month_name (suc (suc (suc (suc (suc (suc (suc (suc (suc (suc zero)))))))))) = codes "October"
month_name (suc (suc (suc (suc (suc (suc (suc (suc (suc (suc (suc zero))))))))))) = codes "November"
month_name (suc (suc (suc (suc (suc (suc (suc (suc (suc (suc (suc (suc n)))))))))))) =
    codes "December"

-- f"{month_name[m]} {y}"; a year has at most four digits.
unfoldable pub label : ℕ × ℕ → Text
unfolding month_name decimal
label (y, m) = month_name m ++ 32 ∷ decimal 9 y

-- The month that a step from (year, month) leads to.
unfoldable pub step_month : Direction → ℕ × ℕ → ℕ × ℕ
step_month prev (y, m) = if ltb (m - 1) 1 then (y - 1, 12) else (y, m - 1)
step_month next (y, m) = if ltb 12 (m + 1) then (y + 1, 1) else (y, m + 1)

unfoldable pub target_month_label : HolidaysPage → Direction → Text
unfolding label step_month
target_month_label page d = label (step_month d (page.year, page.month))

-- `for i in range(1, 13)`, with the months left.
unfoldable pub find_month : (left i : ℕ) → Text → Option ℕ
unfolding month_name
find_month zero i name = none
find_month (suc left) i name =
    let later = find_month left (i + 1) name in
    if lower (month_name i) == lower name then some i else later

-- The match of `^\s*([A-Za-z]+)\s+(\d{4})\s*$`: the name of the month and the digits.
unfoldable pub match_label : Text → Option (Text × Text)
match_label s =
    let s1 = skip is_space s in
    let name = front is_letter s1 in
    let s2 = skip is_letter s1 in
    let s3 = skip is_space s2 in
    let digits = front is_digit s3 in
    if leb 1 (length name)
      && leb 1 (length (front is_space s2))
      && length digits == 4
      && length (skip is_space (skip is_digit s3)) == 0
    then some (name, digits)
    else none

unfoldable pub label_to_ym : Text → ℕ × ℕ
unfolding match_label find_month number
label_to_ym s = elim (match_label s) [
  | none ↦ (0, 0)
  | some (name, digits) ↦ (elim (find_month 12 1 name) [
    | none ↦ (0, 0)
    | some i ↦ (number 0 digits, i)
  ])
]

-- The order of Python's tuples.
abbrev pub before : ℕ × ℕ → ℕ × ℕ → Bool
before (y, m) (y', m') = ltb y y' || (y == y' && ltb m m')

unfoldable pub step_direction : HolidaysPage → Text → Option Direction
unfolding label_to_ym
step_direction walker target =
    if lower walker.month_label == lower target
    then none
    else if before (walker.year, walker.month) (label_to_ym target)
    then some next
    else some prev

-- t_year and t_month of the second fast path.
unfoldable pub neighbour : HolidaysPage → Direction → ℕ × ℕ
neighbour page next = (
  if ltb page.month 12 then page.year else page.year + 1,
  if ltb page.month 12 then page.month + 1 else 1,
)
neighbour page prev = (
  if ltb 1 page.month then page.year else page.year - 1,
  if ltb 1 page.month then page.month - 1 else 12,
)
