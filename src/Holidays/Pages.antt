-- ===== src/Holidays/Pages.antt =====
-- HolidayEntry and HolidaysPage of app/nitris/holidays_parser.py, and the JSON that
-- app/services/holidays_service.py writes and reads.
use updatednitr.Prelude.{
  ℕ, String, Bool, false, Option, none, some, List, [], ◌∷◌, if◌then◌else◌, ◌==◌, string_eq, Text,
}

pub record HolidayEntry : Type 0 where
  pub day : ℕ
  pub name : Text
  pub month : ℕ
  pub year : ℕ
  pub is_trailing : Bool

pub record HolidaysPage : Type 0 where
  pub month : ℕ
  pub year : ℕ
  pub month_label : Text
  pub holidays : List HolidayEntry
  pub prev_event_argument : Option Text
  pub next_event_argument : Option Text
  pub event_target : Text
  pub raw_html : Text

-- What a JSON text can hold here.
mutual
  pub data Json : Type 0 where
    null : Json
    bool : Bool → Json
    num : ℕ → Json
    str : Text → Json
    arr : Items → Json
    obj : Fields → Json

  pub data Items : Type 0 where
    nil : Items
    cons : Json → Items → Items

  pub data Fields : Type 0 where
    end : Fields
    field : String → Json → Fields → Fields

-- data.get(key)
unfoldable pub get : String → Fields → Option Json
get k end = none
get k (field j v fs) = if j == k then some v else get k fs

abbrev pub optional : Option Text → Json
optional none = null
optional (some s) = str s

unfoldable pub serialize_entry : HolidayEntry → Json
serialize_entry h = obj (
    field "day" (num h.day) (
      field "name" (str h.name) (
        field "month" (num h.month)
          (field "year" (num h.year) (field "is_trailing" (bool h.is_trailing) end)))))

unfoldable pub serialize_entries : List HolidayEntry → Items
serialize_entries [] = nil
serialize_entries (h ∷ hs) = cons (serialize_entry h) (serialize_entries hs)

unfoldable pub serialize_holidays_page : HolidaysPage → Fields
serialize_holidays_page page = field "month" (num page.month) (
    field "year" (num page.year) (
      field "month_label" (str page.month_label) (
        field "holidays" (arr (serialize_entries page.holidays)) (
          field "prev_event_argument" (optional page.prev_event_argument) (
            field "next_event_argument" (optional page.next_event_argument) (
              field "event_target" (str page.event_target)
                (field "raw_html" (str page.raw_html) end)))))))

-- Reading chains: `none` is a KeyError, or a value of another type than the field's.
infixl 5 ◌>>=◌
abbrev pub ◌>>=◌ {ℓ κ} : {A : Type ℓ} {B : Type κ} → Option A → (A → Option B) → Option B
none >>= f = none
some a >>= f = f a

abbrev pub as_num : Json → Option ℕ
as_num (num n) = some n
as_num j = none

abbrev pub as_text : Json → Option Text
as_text (str s) = some s
as_text j = none

abbrev pub as_bool : Json → Option Bool
as_bool (bool b) = some b
as_bool j = none

abbrev pub as_optional : Json → Option (Option Text)
as_optional null = some none
as_optional (str s) = some (some s)
as_optional j = none

-- data.get(key, default), then the value's type.
abbrev pub get_default {ℓ} : {A : Type ℓ} → (Json → Option A) → A → String → Fields → Option A
get_default read default k fs = elim (get k fs) [ none ↦ some default | some j ↦ read j ]

unfoldable pub deserialize_entry : Json → Option HolidayEntry
unfolding get
deserialize_entry (obj fs) = do
  day ← get "day" fs >>= as_num
  name ← get "name" fs >>= as_text
  month ← get "month" fs >>= as_num
  year ← get "year" fs >>= as_num
  is_trailing ← get_default as_bool false "is_trailing" fs
  some (record { day = day; name = name; month = month; year = year; is_trailing = is_trailing })
deserialize_entry j = none

unfoldable pub deserialize_entries : Items → Option (List HolidayEntry)
deserialize_entries nil = some []
deserialize_entries (cons j js) = do
  h ← deserialize_entry j
  hs ← deserialize_entries js
  some (h ∷ hs)

abbrev pub as_entries : Json → Option (List HolidayEntry)
unfolding deserialize_entries
as_entries (arr js) = deserialize_entries js
as_entries j = none

-- `default_target` is HOLIDAYS_CALENDAR_EVENT_TARGET.
unfoldable pub deserialize_holidays_page : (default_target : Text) → Fields → Option HolidaysPage
unfolding get
deserialize_holidays_page default_target fs = do
  holidays ← get_default as_entries [] "holidays" fs
  month ← get "month" fs >>= as_num
  year ← get "year" fs >>= as_num
  month_label ← get "month_label" fs >>= as_text
  prev ← get_default as_optional none "prev_event_argument" fs
  next ← get_default as_optional none "next_event_argument" fs
  target ← get_default as_text default_target "event_target" fs
  raw_html ← get_default as_text [] "raw_html" fs
  some (record {
    month = month;
    year = year;
    month_label = month_label;
    holidays = holidays;
    prev_event_argument = prev;
    next_event_argument = next;
    event_target = target;
    raw_html = raw_html;
  })
