-- ===== src/NowNext/Resolve.antt =====
-- resolve_now_and_next of app/services/now_next_service.py.
use updatednitr.Prelude.{
  ℕ, zero, suc, ◌+◌, ◌-◌, ◌*◌, ◌/◌, ◌%◌, Bool, true, false, not, ◌&&◌, ◌||◌, Option, none, some,
  List, [], ◌∷◌, leb, ltb, any, if◌then◌else◌, ◌==◌, nat_eq,
}
use updatednitr.NowNext.Slots.{ClassSlot, Moment, minute, day, by_day, is_pause}

pub record NowNextResult : Type 0 where
  pub current_class : Option ClassSlot
  pub next_class : Option ClassSlot
  pub is_lunch_break : Bool
  pub is_before_first_class : Bool
  pub is_day_done : Bool
  pub is_weekend : Bool
  pub minutes_until_next : Option ℕ
  pub next_class_day_offset : ℕ
  pub evaluated_at_ist : Moment

-- The end of a slot with its grace: a time of the day, which wraps at midnight.
abbrev pub end_with_grace : ℕ → ClassSlot → ℕ
end_with_grace grace s = (s.end_time + grace * minute) % day

abbrev pub is_on : ℕ → ℕ → ClassSlot → Bool
is_on grace now s = leb s.start_time now && leb now (end_with_grace grace s)

-- The first of the day's slots that is on.
unfoldable pub active_slot : (grace now : ℕ) → List ClassSlot → Option ClassSlot
active_slot grace now [] = none
active_slot grace now (s ∷ ss) =
    let later = active_slot grace now ss in if is_on grace now s then some s else later

abbrev pub class_of : Option ClassSlot → Option ClassSlot
class_of none = none
class_of (some s) = if is_pause s then none else some s

abbrev pub pause_of : Option ClassSlot → Bool
pause_of none = false
pause_of (some s) = is_pause s

-- What can be the next class of its day.
abbrev pub is_candidate : (offset now : ℕ) → ClassSlot → Bool
is_candidate offset now s = not (is_pause s) && (if offset == 0 then ltb now s.start_time else true)

unfoldable pub first_candidate : (offset now : ℕ) → List ClassSlot → Option ClassSlot
unfolding is_pause
first_candidate offset now [] = none
first_candidate offset now (s ∷ ss) =
    let later = first_candidate offset now ss in if is_candidate offset now s then some s else later

-- The days that are left of the lookahead, from an offset on.
unfoldable pub search : List ClassSlot → Moment → (left offset : ℕ) → Option (ClassSlot × ℕ)
unfolding by_day first_candidate
search entries now zero offset = none
search entries now (suc left) offset =
    let later = search entries now left (offset + 1) in
    elim (first_candidate offset now.time (by_day entries ((now.weekday + offset) % 7))) [
      | some s ↦ some (s, offset)
      | none ↦ later
    ]

-- max(0, int((target_dt - now_ist).total_seconds() // 60))
abbrev pub minutes_until : Moment → ClassSlot × ℕ → ℕ
minutes_until now (s, offset) = (offset * day + s.start_time - now.time) / minute

abbrev pub slot_of : Option (ClassSlot × ℕ) → Option ClassSlot
slot_of none = none
slot_of (some (s, offset)) = some s

abbrev pub offset_of : Option (ClassSlot × ℕ) → ℕ
offset_of none = 0
offset_of (some (s, offset)) = offset

abbrev pub minutes_of : Moment → Option (ClassSlot × ℕ) → Option ℕ
minutes_of now none = none
minutes_of now (some c) = some (minutes_until now c)

-- next(s for s in today_slots if not s.is_break), and whether it is still to come.
abbrev pub before_first : ℕ → List ClassSlot → Bool
before_first now [] = false
before_first now (s ∷ ss) =
    let later = before_first now ss in if s.is_break then later else ltb now s.start_time

abbrev pub is_today : Option (ClassSlot × ℕ) → Bool
is_today none = false
is_today (some (s, offset)) = offset == 0

-- resolve_now_and_next; every weekday of the entries is below 7, as the keys of by_day are. `lookahead`
-- is TIMETABLE_LOOKAHEAD_DAYS, `grace` TIMETABLE_CLASS_END_GRACE_MIN.
abbrev pub resolve_entries : (lookahead grace : ℕ) → List ClassSlot → Moment → NowNextResult
unfolding by_day active_slot search
resolve_entries lookahead grace entries now =
    let today_slots = by_day entries now.weekday in
    let active = active_slot grace now.time today_slots in
    let found = search entries now lookahead 0 in
    let has_today_classes = any (λ s. not s.is_break) today_slots in
    record {
      current_class = class_of active;
      next_class = slot_of found;
      is_lunch_break = pause_of active;
      is_before_first_class =
          has_today_classes && is_today found && before_first now.time today_slots;
      is_day_done = has_today_classes && not (is_today found) && ltb 0 (offset_of found);
      is_weekend = now.weekday == 5 || now.weekday == 6;
      minutes_until_next = minutes_of now found;
      next_class_day_offset = offset_of found;
      evaluated_at_ist = now;
    }

unfoldable pub resolve_now_and_next :
    (lookahead grace : ℕ) → List ClassSlot → Moment → NowNextResult
unfolding resolve_entries
resolve_now_and_next lookahead grace [] now = record {
  current_class = none;
  next_class = none;
  is_lunch_break = false;
  is_before_first_class = false;
  is_day_done = false;
  is_weekend = now.weekday == 5 || now.weekday == 6;
  minutes_until_next = none;
  next_class_day_offset = 0;
  evaluated_at_ist = now;
}
resolve_now_and_next lookahead grace (e ∷ es) now = resolve_entries lookahead grace (e ∷ es) now
