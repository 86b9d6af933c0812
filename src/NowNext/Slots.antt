-- ===== src/NowNext/Slots.antt =====
-- The rows of a timetable, by day (app/services/now_next_service.py, TimetableEntry of
-- app/db/models.py). Times of a day are in microseconds since midnight.
use updatednitr.Prelude.{
  ℕ, Bool, ◌||◌, List, [], ◌∷◌, keep, leb, if◌then◌else◌, ◌==◌, nat_eq, Text, codes, has_text,
  upper,
}

pub record ClassSlot : Type 0 where
  pub subject_code : Text
  pub room : Text
  pub start_time : ℕ
  pub end_time : ℕ
  pub period_index : ℕ
  pub weekday : ℕ
  pub is_break : Bool
  pub subject_name : Text
  pub course_type : Text

-- A moment: the day of the week, from Monday as 0, and the time of the day.
pub record Moment : Type 0 where
  pub weekday : ℕ
  pub time : ℕ

abbrev pub minute : ℕ
minute = 60000000

abbrev pub day : ℕ
day = 86400000000

unfoldable pub insert_by_start : ClassSlot → List ClassSlot → List ClassSlot
insert_by_start s [] = s ∷ []
insert_by_start s (x ∷ xs) =
    let rest = insert_by_start s xs in
    if leb s.start_time x.start_time then s ∷ x ∷ xs else x ∷ rest

-- by_day[d].sort(key=lambda s: s.start_time), which is stable
unfoldable pub sort_by_start : List ClassSlot → List ClassSlot
unfolding insert_by_start
sort_by_start [] = []
sort_by_start (s ∷ ss) = insert_by_start s (sort_by_start ss)

unfoldable pub by_day : List ClassSlot → ℕ → List ClassSlot
unfolding sort_by_start
by_day entries d = sort_by_start (keep (λ e. e.weekday == d) entries)

-- s.is_break or "LUNCH" in s.subject_code.upper()
unfoldable pub is_pause : ClassSlot → Bool
is_pause s = s.is_break || has_text (codes "LUNCH") (upper s.subject_code)
