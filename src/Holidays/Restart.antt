-- ===== src/Holidays/Restart.antt =====
-- The cache of months of app/services/holidays_service.py across a restart: _save_disk_cache, then
-- _load_disk_cache.
use updatednitr.Prelude.{
  ℕ, ◌+◌, ◌≡◌, refl, ◌∙◌, Bool, true, false, Option, none, some, [], ◌∷◌, Text, ◌==◌, Dict, lookup,
  insert, lookup-insert, if◌then◌else◌,
}
use updatednitr.Holidays.Pages.{HolidaysPage, get, serialize_entries, deserialize_holidays_page}
use updatednitr.Holidays.Transport.{as_entries-serialize, as_optional-optional}
use updatednitr.Holidays.Cache.{
  month_eq, month_beq_iff, Cached, given, dump_page, save_disk_cache, load_entry, load_disk_cache,
  global_holidays_cache_ttl,
}

deserialize-dump_page :
    (default_target : Text) (page : HolidaysPage)
    → deserialize_holidays_page default_target (dump_page page) ≡ some page
unfolding deserialize_holidays_page dump_page get
deserialize-dump_page default_target page =
    rw
      (
        as_entries-serialize page.holidays,
        as_optional-optional page.prev_event_argument,
        as_optional-optional page.next_event_argument,
      )
      refl

-- The entry that a month has after the restart: the same page and the same answer, whose page has the
-- two flags besides, and a new lease.
abbrev restored : (now : ℕ) → Cached → Cached
restored now e = record {
  res_dict = record {
    month = e.page.month;
    year = e.page.year;
    month_label = e.page.month_label;
    holidays = serialize_entries e.page.holidays;
    prev_available = given e.page.prev_event_argument;
    next_available = given e.page.next_event_argument;
    page = dump_page e.page;
  };
  page = e.page;
  expires_at = now + global_holidays_cache_ttl;
}

load_entry-dump_page :
    (now : ℕ) (default_target : Text) (e : Cached)
    → load_entry now default_target (dump_page e.page)
      ≡ some ((e.page.year, e.page.month), restored now e)
unfolding load_entry get dump_page
load_entry-dump_page now default_target e = rw (deserialize-dump_page default_target e.page) refl

-- The keys of the dictionary differ, and each is the month of its page.
abbrev pub IsOwn : Dict (ℕ × ℕ) Cached → Type 0
IsOwn [] = Unit
IsOwn ((ym, e) ∷ d) = (lookup ym d ≡ none) × ((e.page.year, e.page.month) ≡ ym) × IsOwn d

abbrev pub after_restart : (now : ℕ) → Option Cached → Option Cached → Option Cached
after_restart now none old = old
after_restart now (some e) old = some (restored now e)

-- After a restart every month of the cache is there again, with its page, and no other: what a lookup
-- finds is what it found before, else what the cache had already.
pub load_disk_cache-save :
    (now : ℕ) (default_target : Text) (ym : ℕ × ℕ) (d cache : Dict (ℕ × ℕ) Cached)
    → IsOwn d
    → lookup ym (load_disk_cache now default_target (save_disk_cache d) cache)
      ≡ after_restart now (lookup ym d) (lookup ym cache)
unfolding load_disk_cache save_disk_cache lookup
load_disk_cache-save now default_target ym [] cache h = refl
load_disk_cache-save now default_target ym ((k, e) ∷ d) cache (fresh, own, h) =
    rw (load_entry-dump_page now default_target e, load_disk_cache)
      (rw own (
        load_disk_cache-save now default_target ym d (insert k (restored now e) cache) h
        ∙ go (k == ym) refl))
  where
    go :
        (b : Bool)
        → (k == ym) ≡ b
        → after_restart now (lookup ym d) (lookup ym (insert k (restored now e) cache))
          ≡ after_restart now (if b then some e else lookup ym d) (lookup ym cache)
    go true q =
        rw (lookup-insert k ym (restored now e) cache, q, ← (month_beq_iff k ym).0 q, fresh) refl
    go false q = rw (lookup-insert k ym (restored now e) cache, q) refl
