-- ===== src/Snapshots/Events.antt =====
-- detect_and_store_changes of app/services/event_service.py: the events between two snapshots.
use updatednitr.Prelude.{
  ℕ, String, Bool, true, false, Option, none, some, List, [], ◌∷◌, ◌++◌, map, if◌then◌else◌, ◌==◌,
  string_eq, text_eq, Text, codes, Dict, lookup, insert,
}
use updatednitr.AttendanceHealth.Numbers.{ℤ, ltb_ℤ}
use updatednitr.AttendanceHealth.Subject.{Scraped}
use updatednitr.Snapshots.Numbers.{safe_int}

pub record Change : Type 0 where
  pub name : String
  pub old_value : Text
  pub new_value : Text

-- The payloads, by EventType.
pub data Payload : Type 0 where
  new_subject_added : (subject_code subject_name faculty tc ua : Text) → Payload
  attendance_updated : (subject_code subject_name : Text) → (changes : List Change) → Payload
  new_absence_detected :
      (subject_code subject_name : Text)
      → (old_ua new_ua : ℤ) → (total_classes ltp : Text) → Payload

pub record Event : Type 0 where
  pub user_id : ℕ
  pub payload : Payload

-- rec.get(key, default)
abbrev pub get_or : String → Text → Scraped → Text
get_or k default rec = elim (lookup k rec) [ none ↦ default | some v ↦ v ]

-- {r["subject_code"]: r for r in records if r.get("subject_code")}
abbrev pub add_code : Text → Scraped → Dict Text Scraped → Dict Text Scraped
add_code [] r d = d
add_code (c ∷ s) r d = insert (c ∷ s) r d

unfoldable pub by_code : List Scraped → Dict Text Scraped → Dict Text Scraped
by_code [] d = d
by_code (r ∷ rs) d = by_code rs (add_code (get_or "subject_code" [] r) r d)

-- The comparison of one field, "0" where it is missing.
unfoldable pub change : String → (prev new : Scraped) → List Change
change name prev new =
    let old_value = get_or name (codes "0") prev in
    let new_value = get_or name (codes "0") new in
    if old_value == new_value
    then []
    else record { name = name; old_value = old_value; new_value = new_value } ∷ []

unfoldable pub changes : (prev new : Scraped) → List Change
unfolding change
changes prev new =
    change "tc" prev new ++ (change "ua" prev new ++ (change "le" prev new ++ change "oa" prev new))

abbrev pub added : ℕ → Text → Scraped → Event
added user_id sub_code rec = record {
  user_id = user_id;
  payload =
      new_subject_added sub_code (get_or "subject_name" (codes "Unknown") rec)
        (get_or "faculty" [] rec) (get_or "tc" (codes "0") rec) (get_or "ua" (codes "0") rec);
}

unfoldable pub absence : ℕ → Text → (prev new : Scraped) → List Event
unfolding safe_int
absence user_id sub_code prev new =
    let old_ua = safe_int (some (get_or "ua" (codes "0") prev)) in
    let new_ua = safe_int (some (get_or "ua" (codes "0") new)) in
    if ltb_ℤ old_ua new_ua
    then record {
      user_id = user_id;
      payload =
          new_absence_detected sub_code (get_or "subject_name" (codes "Unknown") new) old_ua new_ua
            (get_or "tc" (codes "0") new) (get_or "ltp" [] new);
    }
      ∷ []
    else []

abbrev pub updated : ℕ → Text → (prev new : Scraped) → List Change → List Event
unfolding absence
updated user_id sub_code prev new [] = []
updated user_id sub_code prev new (c ∷ cs) =
    record {
      user_id = user_id;
      payload = attendance_updated sub_code (get_or "subject_name" (codes "Unknown") new) (c ∷ cs);
    }
    ∷ absence user_id sub_code prev new

-- The body of the loop, for one subject of the new snapshot.
unfoldable pub subject_events : ℕ → Dict Text Scraped → Text → Scraped → List Event
unfolding changes absence
subject_events user_id prev_map sub_code rec = elim (lookup sub_code prev_map) [
  | none ↦ added user_id sub_code rec ∷ []
  | some prev ↦ updated user_id sub_code prev rec (changes prev rec)
]

unfoldable pub compare_all : ℕ → (prev_map new_map : Dict Text Scraped) → List Event
unfolding subject_events
compare_all user_id prev_map [] = []
compare_all user_id prev_map ((sub_code, rec) ∷ rest) =
    subject_events user_id prev_map sub_code rec ++ compare_all user_id prev_map rest

-- `previous` is the records of the snapshot before, if there is one.
unfoldable pub detect_and_store_changes :
    (user_id : ℕ)
    → (previous : Option (List Scraped)) → (records : List Scraped) → (baseline : Bool) → List Event
unfolding compare_all by_code
detect_and_store_changes user_id none records true = []
detect_and_store_changes user_id none records false =
    map (λ rec. added user_id (get_or "subject_code" (codes "Unknown") rec) rec) records
detect_and_store_changes user_id (some prev) records baseline =
    compare_all user_id (by_code prev []) (by_code records [])
