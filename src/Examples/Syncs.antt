-- ===== src/Examples/Syncs.antt =====
-- Runs of the snapshots and their events (app/services/snapshot_service.py,
-- app/services/event_service.py).
use updatednitr.Prelude.{
  ◌≡◌, refl, false, some, none, List, [], ◌∷◌, arith, codes, Text, text_eq, lookup, any, ◌≢◌, inr,
  string_eq,
}
use updatednitr.AttendanceHealth.Subject.{Scraped}
use updatednitr.AttendanceHealth.Numbers.{int_of}
use updatednitr.Snapshots.Numbers.{safe_int, to_clean_int}
use updatednitr.Snapshots.Parsing.{Agrees, to_clean_int-Agrees}
use updatednitr.Snapshots.Events.{get_or, by_code, detect_and_store_changes}
use updatednitr.Snapshots.Detection.{about, is_news, detect_and_store_changes-about}
use updatednitr.Snapshots.Store.{AttendanceResult, Tables, create_snapshot_if_changed}
use updatednitr.Snapshots.History.{IsRecorded, create_snapshot_if_changed-IsRecorded}

to_clean_int-Agrees_example :
    Agrees (to_clean_int (some (codes "3-4"))) (safe_int (some (codes "3-4")))
to_clean_int-Agrees_example = to_clean_int-Agrees (some (codes "3-4"))

to_clean_int_raises : to_clean_int (some (codes "3-4")) ≡ none
unfolding to_clean_int int_of
to_clean_int_raises = refl

abbrev course : Text → List Scraped
course ua = (("subject_code", codes "EE2001") ∷ ("tc", codes "9") ∷ ("ua", ua) ∷ []) ∷ []

detect_and_store_changes-about_example :
    any
      (about (codes "EE2001"))
      (detect_and_store_changes 7 (some (course (codes "1"))) (course (codes "2")) false)
    ≡ is_news
        (lookup (codes "EE2001") (by_code (course (codes "1")) []))
        (lookup (codes "EE2001") (by_code (course (codes "2")) []))
detect_and_store_changes-about_example =
    detect_and_store_changes-about 7 (course (codes "1")) (course (codes "2")) false
      (codes "EE2001")

abbrev result : Text → AttendanceResult
result ua = record { student_info = codes "123EE0001"; records = course ua }

-- A hash that tells these two results apart: the text of the absences.
abbrev absences : AttendanceResult → Text
absences result = of_records result.records
  where
    of_records : List Scraped → Text
    of_records [] = []
    of_records (r ∷ rs) = get_or "ua" [] r

abbrev before : Tables
before = record {
  snapshots =
      record {
        id = 4;
        user_id = 7;
        module_name = "attendance";
        snapshot_json = result (codes "1");
        snapshot_hash = absences (result (codes "1"));
      }
      ∷ [];
  next_id = 5;
  events = [];
}

is_apart : absences (result (codes "1")) ≢ absences (result (codes "2"))
unfolding lookup
is_apart e = ground (arith, e)

create_snapshot_if_changed-IsRecorded_example :
    IsRecorded absences 7 "attendance"
      (result (codes "2"))
      before
      (create_snapshot_if_changed absences 7 "attendance" (result (codes "2")) false before).0
create_snapshot_if_changed-IsRecorded_example =
    create_snapshot_if_changed-IsRecorded absences 7 "attendance" (result (codes "2")) false before
      (inr is_apart, tt) (refl, tt)
