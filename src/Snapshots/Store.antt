-- ===== src/Snapshots/Store.antt =====
-- create_snapshot_if_changed and detect_changed_attendance_subjects of app/services/snapshot_service.py,
-- on the table of snapshots. The advisory lock makes each call one step.
use updatednitr.Prelude.{
  ℕ, ◌+◌, String, Bool, true, false, not, ◌&&◌, ◌||◌, Option, none, some, List, [], ◌∷◌, ◌++◌,
  if◌then◌else◌, ◌==◌, nat_eq, string_eq, text_eq, Text, Dict, lookup, insert, strip, upper,
}
use updatednitr.AttendanceHealth.Numbers.{ℤ, pos_part, neg_part}
use updatednitr.AttendanceHealth.Subject.{Scraped}
use updatednitr.Snapshots.Numbers.{to_clean_int}
use updatednitr.Snapshots.Events.{Event, detect_and_store_changes, get_or}

-- AttendanceResult of app/nitris/parser.py, which a snapshot keeps as a whole.
pub record AttendanceResult : Type 0 where
  pub student_info : Text
  pub records : List Scraped

pub record Snapshot : Type 0 where
  pub id : ℕ
  pub user_id : ℕ
  pub module_name : String
  pub snapshot_json : AttendanceResult
  pub snapshot_hash : Text

-- The tables of snapshots, the newest first, and of events.
pub record Tables : Type 0 where
  pub snapshots : List Snapshot
  pub next_id : ℕ
  pub events : List Event

-- get_latest_snapshot: the greatest id of the user and the module.
unfoldable pub get_latest_snapshot : ℕ → String → List Snapshot → Option Snapshot
get_latest_snapshot user_id module_name [] = none
get_latest_snapshot user_id module_name (s ∷ ss) =
    let rest = get_latest_snapshot user_id module_name ss in
    if s.user_id == user_id && s.module_name == module_name then some s else rest

-- What the call returns.
pub record Saved : Type 0 where
  pub changed : Bool
  pub previous : Option Snapshot
  pub current : Snapshot

abbrev pub records_of : Option Snapshot → Option (List Scraped)
records_of none = none
records_of (some s) = some s.snapshot_json.records

abbrev pub create :
    (hash : AttendanceResult → Text)
    → ℕ
    → String
    → (attendance_result : AttendanceResult) → (baseline : Bool) → Option Snapshot
    → Tables
    → Tables × Saved
create hash user_id module_name attendance_result baseline previous t =
    let s : Snapshot = record {
      id = t.next_id;
      user_id = user_id;
      module_name = module_name;
      snapshot_json = attendance_result;
      snapshot_hash = hash attendance_result;
    } in
    (
      record {
        snapshots = s ∷ t.snapshots;
        next_id = t.next_id + 1;
        events =
            t.events
            ++ detect_and_store_changes user_id (records_of previous) attendance_result.records
                baseline;
      },
      record { changed = true; previous = previous; current = s },
    )

unfoldable pub create_snapshot_if_changed :
    (hash : AttendanceResult → Text)
    → ℕ
    → String
    → (attendance_result : AttendanceResult) → (baseline : Bool) → Tables
    → Tables × Saved
unfolding get_latest_snapshot detect_and_store_changes
create_snapshot_if_changed hash user_id module_name attendance_result baseline t =
    elim (get_latest_snapshot user_id module_name t.snapshots) [
      | none ↦ create hash user_id module_name attendance_result baseline none t
      | some latest ↦
          if latest.snapshot_hash == hash attendance_result
          then (t, record { changed = false; previous = some latest; current = latest })
          else create hash user_id module_name attendance_result baseline (some latest) t
    ]

-- str(r.get("subject_code") or "").strip().upper()
abbrev pub code_of : Scraped → Text
code_of r = upper (strip (get_or "subject_code" [] r))

abbrev add_upper : Text → Scraped → Dict Text Scraped → Dict Text Scraped
add_upper [] r d = d
add_upper (c ∷ s) r d = insert (code_of r) r d

unfoldable pub by_upper : List Scraped → Dict Text Scraped → Dict Text Scraped
by_upper [] d = d
by_upper (r ∷ rs) d = by_upper rs (add_upper (get_or "subject_code" [] r) r d)

abbrev same_ℤ : ℤ → ℤ → Bool
same_ℤ a b = (pos_part a + neg_part b) == (pos_part b + neg_part a)

-- Whether a field changed; `none` is the ValueError of _to_clean_int.
unfoldable pub field_changed : String → (prev new : Scraped) → Option Bool
unfolding to_clean_int
field_changed k prev new = elim (to_clean_int (lookup k prev)) [
  | none ↦ none
  | some a ↦ (elim (to_clean_int (lookup k new)) [ none ↦ none | some b ↦ some (not (same_ℤ a b)) ])
]

abbrev either : Option Bool → Option Bool → Option Bool
either none b = none
either (some a) none = none
either (some a) (some b) = some (a || b)

unfoldable pub metrics_changed : (prev new : Scraped) → Option Bool
unfolding field_changed
metrics_changed prev new = either (field_changed "tc" prev new) (
    either (field_changed "ua" prev new)
      (either (field_changed "le" prev new) (field_changed "oa" prev new)))

abbrev put_if : Text → Option Bool → Option (List Text) → Option (List Text)
put_if code none rest = none
put_if code (some true) (some rest) = some (code ∷ rest)
put_if code (some false) (some rest) = some rest
put_if code (some b) none = none

-- The loop over the new records.
unfoldable pub changed_subjects : Dict Text Scraped → List Scraped → Option (List Text)
unfolding metrics_changed
changed_subjects prev_map [] = some []
changed_subjects prev_map (r ∷ rs) =
    let rest = changed_subjects prev_map rs in
    let code = code_of r in
    if code == [] then rest else (elim (lookup code prev_map) [
      | none ↦ put_if code (some true) rest
      | some prev ↦ put_if code (metrics_changed prev r) rest
    ])

unfoldable pub detect_changed_attendance_subjects : Option Snapshot → Snapshot → Option (List Text)
unfolding changed_subjects by_upper
detect_changed_attendance_subjects none new = some []
detect_changed_attendance_subjects (some prev) new =
    changed_subjects (by_upper prev.snapshot_json.records []) new.snapshot_json.records
