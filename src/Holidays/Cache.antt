-- ===== src/Holidays/Cache.antt =====
-- The caches of app/services/holidays_service.py: the months of the institute, in memory and on disk,
-- and the page that each user looked at last.
use updatednitr.Prelude.{
  ℕ, zero, suc, ◌+◌, ◌-◌, ◌*◌, ◌≡◌, ◌↔◌, Bool, true, false, ◌&&◌, Option, none, some, List, [], ◌∷◌,
  arith, ltb, leb, nat_beq, nat_beq_iff, length, if◌then◌else◌, nat_eq, Key, Dict, lookup, insert,
  erase, Text,
}
use updatednitr.Holidays.Pages.{
  HolidaysPage, Json, Items, Fields, num, bool, str, arr, field, end, optional, get, get_default,
  as_num, as_bool, as_text, serialize_entries, serialize_holidays_page, deserialize_holidays_page,
  ◌>>=◌,
}

abbrev month_beq : ℕ × ℕ → ℕ × ℕ → Bool
month_beq (y, m) (y', m') = nat_beq y y' && nat_beq m m'

pub month_beq_iff : (a b : ℕ × ℕ) → (month_beq a b ≡ true) ↔ (a ≡ b)
month_beq_iff (y, m) (y', m') = ground (arith, nat_beq_iff y y', nat_beq_iff m m')

-- The keys (year, month).
instance abbrev pub month_eq : Key (ℕ × ℕ)
month_eq = record { same = month_beq; same_iff = month_beq_iff }

-- The dictionary that a user is served.
pub record Served : Type 0 where
  pub month : ℕ
  pub year : ℕ
  pub month_label : Text
  pub holidays : Items
  pub prev_available : Bool
  pub next_available : Bool
  pub page : Fields

pub record Cached : Type 0 where
  pub res_dict : Served
  pub page : HolidaysPage
  pub expires_at : ℕ

pub record UserPage : Type 0 where
  pub page : HolidaysPage
  pub expires_at : ℕ

pub record Calendar : Type 0 where
  pub global_month_cache : Dict (ℕ × ℕ) Cached
  pub user_calendar_pages : Dict ℕ UserPage

abbrev pub global_holidays_cache_ttl : ℕ
global_holidays_cache_ttl = 86400 * 30

abbrev pub page_cache_ttl : ℕ
page_cache_ttl = 900

abbrev pub user_pages_max_entries : ℕ
user_pages_max_entries = 256

-- bool(argument): None and the empty text are false.
abbrev pub given : Option Text → Bool
given none = false
given (some []) = false
given (some (c ∷ s)) = true

-- The dictionary that fetch_user_holidays and _cache_intermediate_page build.
unfoldable pub served : HolidaysPage → Served
served page = record {
  month = page.month;
  year = page.year;
  month_label = page.month_label;
  holidays = serialize_entries page.holidays;
  prev_available = given page.prev_event_argument;
  next_available = given page.next_event_argument;
  page = serialize_holidays_page page;
}

-- The users whose entries have expired.
unfoldable pub expired : (now : ℕ) → Dict ℕ UserPage → List ℕ
expired now [] = []
expired now ((uid, e) ∷ d) =
    let rest = expired now d in if leb e.expires_at now then uid ∷ rest else rest

unfoldable pub pop_all : List ℕ → Dict ℕ UserPage → Dict ℕ UserPage
pop_all [] d = d
pop_all (uid ∷ uids) d = pop_all uids (erase uid d)

-- The stable sort by expiry.
unfoldable pub insert_by_exp : ℕ × UserPage → Dict ℕ UserPage → Dict ℕ UserPage
insert_by_exp kv [] = kv ∷ []
insert_by_exp kv (kw ∷ d) =
    let rest = insert_by_exp kv d in
    if leb kv.1.expires_at kw.1.expires_at then kv ∷ kw ∷ d else kw ∷ rest

unfoldable pub sorted_by_exp : Dict ℕ UserPage → Dict ℕ UserPage
unfolding insert_by_exp
sorted_by_exp [] = []
sorted_by_exp (kv ∷ d) = insert_by_exp kv (sorted_by_exp d)

-- The keys of the first entries: `[: n]`.
unfoldable pub first_keys : ℕ → Dict ℕ UserPage → List ℕ
first_keys zero d = []
first_keys (suc n) [] = []
first_keys (suc n) ((uid, e) ∷ d) = uid ∷ first_keys n d

unfoldable pub prune : (now : ℕ) → Dict ℕ UserPage → Dict ℕ UserPage
unfolding expired pop_all sorted_by_exp first_keys
prune now d =
    let live = pop_all (expired now d) d in
    let over = length live - user_pages_max_entries in
    if ltb user_pages_max_entries (length live)
    then pop_all (first_keys over (sorted_by_exp live)) live
    else live

unfoldable pub prune_user_pages : (now : ℕ) → Calendar → Calendar
unfolding prune
prune_user_pages now c = record c { user_calendar_pages = prune now c.user_calendar_pages }

unfoldable pub store_user_page : (now user_id : ℕ) → HolidaysPage → Calendar → Calendar
unfolding prune_user_pages
store_user_page now user_id page c = prune_user_pages now (record c {
  user_calendar_pages =
      insert user_id (record { page = page; expires_at = now + page_cache_ttl })
        c.user_calendar_pages;
})

-- It drops an entry that is stale.
unfoldable pub get_cached_user_page : (now user_id : ℕ) → Calendar → Calendar × Option HolidaysPage
get_cached_user_page now user_id c =
    let dropped = record c { user_calendar_pages = erase user_id c.user_calendar_pages } in
    elim (lookup user_id c.user_calendar_pages) [
      | none ↦ (dropped, none)
      | some e ↦ if ltb now e.expires_at then (c, some e.page) else (dropped, none)
    ]

unfoldable pub get_cached_holidays : (now : ℕ) → ℕ × ℕ → Calendar → Option Served
get_cached_holidays now ym c = elim (lookup ym c.global_month_cache) [
  | none ↦ none
  | some e ↦ if ltb now e.expires_at then some e.res_dict else none
]

-- The write to the disk that follows is `save_disk_cache`, on a thread of its own.
unfoldable pub store_cached_holidays : (now : ℕ) → HolidaysPage → Served → Calendar → Calendar
store_cached_holidays now page res c = record c {
  global_month_cache =
      insert (page.year, page.month)
        (record { res_dict = res; page = page; expires_at = now + global_holidays_cache_ttl })
        c.global_month_cache;
}

unfoldable pub cache_intermediate_page : (now : ℕ) → HolidaysPage → Calendar → Calendar
unfolding served store_cached_holidays
cache_intermediate_page now page c = store_cached_holidays now page (served page) c

-- The value of one month on the disk.
unfoldable pub dump_page : HolidaysPage → Fields
dump_page page = field "month" (num page.month) (
    field "year" (num page.year) (
      field "month_label" (str page.month_label) (
        field "holidays" (arr (serialize_entries page.holidays)) (
          field "prev_available" (bool (given page.prev_event_argument)) (
            field "next_available" (bool (given page.next_event_argument)) (
              field "prev_event_argument" (optional page.prev_event_argument) (
                field "next_event_argument" (optional page.next_event_argument) (
                  field "event_target" (str page.event_target)
                    (field "raw_html" (str page.raw_html) end)))))))))

-- The file has a text f"{y}-{m}" for each key; here it keeps the pair, which that text determines.
unfoldable pub save_disk_cache : Dict (ℕ × ℕ) Cached → Dict (ℕ × ℕ) Fields
unfolding dump_page
save_disk_cache [] = []
save_disk_cache ((ym, e) ∷ d) = (ym, dump_page e.page) ∷ save_disk_cache d

-- `val.get("holidays", [])` and the flags, as they are written.
abbrev as_items : Json → Option Items
as_items (arr js) = some js
as_items j = none

unfoldable pub load_entry : (now : ℕ) (default_target : Text) → Fields → Option ((ℕ × ℕ) × Cached)
unfolding get
load_entry now default_target val = do
  year ← get "year" val >>= as_num
  month ← get "month" val >>= as_num
  page ← deserialize_holidays_page default_target val
  month_label ← get "month_label" val >>= as_text
  holidays ← get_default as_items Items.nil "holidays" val
  prev_available ← get_default as_bool false "prev_available" val
  next_available ← get_default as_bool false "next_available" val
  some (
    (year, month),
    record {
      res_dict = record {
        month = month;
        year = year;
        month_label = month_label;
        holidays = holidays;
        prev_available = prev_available;
        next_available = next_available;
        page = val;
      };
      page = page;
      expires_at = now + global_holidays_cache_ttl;
    },
  )

-- An entry that cannot be read ends the loop; what was read before stays.
unfoldable pub load_disk_cache :
    (now : ℕ) (default_target : Text)
    → Dict (ℕ × ℕ) Fields
    → Dict (ℕ × ℕ) Cached
    → Dict (ℕ × ℕ) Cached
unfolding load_entry
load_disk_cache now default_target [] cache = cache
load_disk_cache now default_target ((k, val) ∷ file) cache =
    elim (load_entry now default_target val) [
      | none ↦ cache
      | some (ym, e) ↦ load_disk_cache now default_target file (insert ym e cache)
    ]
