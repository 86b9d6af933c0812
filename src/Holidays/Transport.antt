-- ===== src/Holidays/Transport.antt =====
-- A page of app/services/holidays_service.py survives its transport as JSON.
use updatednitr.Prelude.{◌≡◌, refl, Option, none, some, List, [], ◌∷◌, Text}
use updatednitr.Holidays.Pages.{
  HolidayEntry, HolidaysPage, serialize_entry, serialize_entries, serialize_holidays_page,
  deserialize_entry, deserialize_entries, deserialize_holidays_page, get, as_entries, as_optional,
  optional, arr,
}

deserialize-serialize_entry : (h : HolidayEntry) → deserialize_entry (serialize_entry h) ≡ some h
unfolding deserialize_entry serialize_entry get
deserialize-serialize_entry h = refl

deserialize-serialize_entries :
    (hs : List HolidayEntry) → deserialize_entries (serialize_entries hs) ≡ some hs
unfolding deserialize_entries serialize_entries
deserialize-serialize_entries [] = refl
deserialize-serialize_entries (h ∷ hs) =
    rw (deserialize-serialize_entry h, deserialize-serialize_entries hs) refl

pub as_entries-serialize :
    (hs : List HolidayEntry) → as_entries (arr (serialize_entries hs)) ≡ some hs
unfolding deserialize_entries
as_entries-serialize hs = deserialize-serialize_entries hs

pub as_optional-optional : (o : Option Text) → as_optional (optional o) ≡ some o
as_optional-optional none = refl
as_optional-optional (some s) = refl

-- Deserializing what serialize_holidays_page made of a page gives that page, whatever its default.
pub deserialize-serialize_holidays_page :
    (default_target : Text) (page : HolidaysPage)
    → deserialize_holidays_page default_target (serialize_holidays_page page) ≡ some page
unfolding deserialize_holidays_page serialize_holidays_page get
deserialize-serialize_holidays_page default_target page =
    rw
      (
        as_entries-serialize page.holidays,
        as_optional-optional page.prev_event_argument,
        as_optional-optional page.next_event_argument,
      )
      refl
