-- ===== src/Snapshots/Numbers.antt =====
-- The counts of a record as numbers: _safe_int of app/services/event_service.py and _to_clean_int of
-- app/services/snapshot_service.py.
use updatednitr.Prelude.{
  ◌||◌, Option, none, some, [], ◌∷◌, keep, ◌==◌, nat_eq, Text, strip, is_digit,
}
use updatednitr.AttendanceHealth.Numbers.{ℤ, pos, int_of}

abbrev pub digits_and_dashes : Text → Text
digits_and_dashes = keep (λ c. is_digit c || c == 45)

-- The default is 0 wherever it is called.
unfoldable pub safe_int : Option Text → ℤ
safe_int none = pos 0
safe_int (some val) =
    let s = strip val in
    elim (int_of s) [
      | some n ↦ n
      | none ↦ (elim (int_of (digits_and_dashes s)) [ some n ↦ n | none ↦ pos 0 ])
    ]

-- int(digits) if digits else 0; `none` is a ValueError, which nobody catches here.
abbrev pub clean : Text → Option ℤ
clean [] = some (pos 0)
clean (c ∷ d) = int_of (c ∷ d)

unfoldable pub to_clean_int : Option Text → Option ℤ
to_clean_int none = some (pos 0)
to_clean_int (some val) =
    let s = strip val in elim (int_of s) [ some n ↦ some n | none ↦ clean (digits_and_dashes s) ]
