-- ===== src/Examples/Timetables.antt =====
-- Runs of the timetable's functions (app/services/now_next_service.py) and of the syncs after the last
-- class (app/services/class_end_sync.py).
use updatednitr.Prelude.{
  ℕ, ◌*◌, ◌+◌, ◌≡◌, refl, Bool, true, false, some, none, List, [], ◌∷◌, arith, codes, has_text,
  Text, inl, inr,
}
use updatednitr.NowNext.Slots.{
  ClassSlot, Moment, minute, by_day, sort_by_start, insert_by_start, is_pause,
}
use updatednitr.NowNext.Resolve.{resolve_now_and_next, search, first_candidate}
use updatednitr.NowNext.Earliest.{IsNoLater, IsToCome, resolve-earliest}
use updatednitr.ClassEnd.Sync.{
  Entry, Cycle, Fired, scan_window, find_class_end_candidates, last_end, has_class, fire,
  run_class_end_sync_cycle, run_cycles,
}
use updatednitr.ClassEnd.Once.{AllDistinct, run_cycles-AllDistinct}
use updatednitr.ClassEnd.Batch.{same_batch-nothing}
use updatednitr.NowNext.Last.{last_class-forgotten}

abbrev slot : (weekday hour : ℕ) → Text → ClassSlot
slot weekday hour code = record {
  subject_code = code;
  room = codes "LA 101";
  start_time = hour * 60 * minute;
  end_time = (hour * 60 + 55) * minute;
  period_index = 1;
  weekday = weekday;
  is_break = false;
  subject_name = [];
  course_type = [];
}

-- Monday at eight, Monday at ten, and Tuesday at eight.
abbrev week : List ClassSlot
week = slot 0 10 (codes "EE2002") ∷ slot 1 8 (codes "MA2003") ∷ slot 0 8 (codes "EE2001") ∷ []

abbrev monday_at : ℕ → Moment
monday_at hour = record { weekday = 0; time = (hour * 60 + 30) * minute }

resolve-earliest_example :
    IsToCome week
      (monday_at 9)
      (resolve_now_and_next 7 2 week (monday_at 9)).next_class
      (resolve_now_and_next 7 2 week (monday_at 9)).next_class_day_offset
    × IsNoLater
        (resolve_now_and_next 7 2 week (monday_at 9)).next_class
        (resolve_now_and_next 7 2 week (monday_at 9)).next_class_day_offset
        (slot 1 8 (codes "MA2003"))
        1
unfolding is_pause has_text
resolve-earliest_example =
    resolve-earliest 7 2 week (monday_at 9) (slot 1 8 (codes "MA2003")) 1 (inr (inl refl)) refl refl
      (omega arith)

next_class_on_monday :
    (resolve_now_and_next 7 2 week (monday_at 9)).next_class ≡ some (slot 0 10 (codes "EE2002"))
unfolding resolve_now_and_next search first_candidate by_day sort_by_start insert_by_start is_pause
    has_text
next_class_on_monday = refl

abbrev mondays : List ClassSlot
mondays = slot 0 8 (codes "EE2001") ∷ []

last_class-forgotten_example :
    ((resolve_now_and_next 7 2 mondays (monday_at 12)).next_class ≡ none)
    × ((resolve_now_and_next 7 2 mondays (monday_at 12)).is_day_done ≡ false)
last_class-forgotten_example =
    last_class-forgotten 7 2 mondays (monday_at 12) ((refl, omega arith), tt) (omega arith)
      (omega arith)

-- Users 7 and 8 have their last class at eight; the batch is one user.
abbrev entries : List Entry
entries =
    record { user_id = 7; slot = slot 0 8 (codes "EE2001") }
    ∷ record { user_id = 8; slot = slot 0 8 (codes "EE2001") }
    ∷ []

abbrev cycle_at : ℕ → Cycle
cycle_at minutes = record {
  now = record { day_key = 20260803; weekday = 0; time = (9 * 60 + minutes) * minute };
  entries = entries;
  users = 7 ∷ 8 ∷ [];
}

abbrev accept : ℕ → ℕ → ℕ × Bool
accept u q = (q + 1, true)

abbrev no_one : Fired
no_one = record { day_key = 0; user_ids = [] }

run_cycles-AllDistinct_example :
    AllDistinct (run_cycles accept 15 20 1 (cycle_at 15 ∷ cycle_at 16 ∷ []) no_one 0)
run_cycles-AllDistinct_example =
    run_cycles-AllDistinct accept 15 20 1 20260803 (cycle_at 15 ∷ cycle_at 16 ∷ []) no_one 0
      (refl, (refl, tt))

same_batch-nothing_example :
    run_cycles accept 15 20 1 (cycle_at 15 ∷ cycle_at 16 ∷ []) no_one 0
    ≡ run_cycles accept 15 20 1 (cycle_at 15 ∷ []) no_one 0
unfolding scan_window find_class_end_candidates last_end has_class
same_batch-nothing_example =
    same_batch-nothing accept 15 20 1 (cycle_at 15) (cycle_at 16)
      ((8 * 60 + 40) * minute, 9 * 60 * minute) ((8 * 60 + 41) * minute, (9 * 60 + 1) * minute)
      no_one 0 refl refl refl refl refl refl (λ u q. refl)

only_the_first : run_cycles accept 15 20 1 (cycle_at 15 ∷ []) no_one 0 ≡ 7 ∷ []
unfolding run_cycles run_class_end_sync_cycle scan_window find_class_end_candidates last_end
    has_class fire
only_the_first = refl
