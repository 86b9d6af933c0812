-- ===== src/Snapshots/Detection.antt =====
-- Which subjects detect_and_store_changes of app/services/event_service.py reports.
use updatednitr.Prelude.{
  ℕ, ◌≡◌, refl, ◌∙◌, ap, Bool, true, false, not, ◌||◌, ◌&&◌, Option, none, some, List, [], ◌∷◌,
  ◌++◌, any, arith, if◌then◌else◌, ◌==◌, text_eq, text_beq_iff, Text, Dict, lookup, Distinct,
  insert-Distinct, String, beq_refl, codes,
}
use updatednitr.AttendanceHealth.Subject.{Scraped}
use updatednitr.Snapshots.Events.{
  Event, Payload, new_subject_added, attendance_updated, new_absence_detected, Change, get_or,
  add_code, by_code, changes, change, absence, subject_events, compare_all,
  detect_and_store_changes,
}

-- The subject that an event is about.
abbrev subject_of : Payload → Text
subject_of (new_subject_added c n f t u) = c
subject_of (attendance_updated c n cs) = c
subject_of (new_absence_detected c n o u t l) = c

abbrev pub about : Text → Event → Bool
about code e = subject_of e.payload == code

abbrev pub some_change : List Change → Bool
some_change [] = false
some_change (c ∷ cs) = true

-- Two records read differently in a field; one that is missing reads 0.
abbrev pub differs : String → (prev new : Scraped) → Bool
differs name prev new = not (get_or name (codes "0") prev == get_or name (codes "0") new)

-- What is news of a subject: it is in the new snapshot, and it was not in the old one or one of its four
-- fields reads differently.
abbrev pub is_news : Option Scraped → Option Scraped → Bool
is_news prev none = false
is_news none (some rec) = true
is_news (some p) (some rec) =
    differs "tc" p rec || (differs "ua" p rec || (differs "le" p rec || differs "oa" p rec))

change-differs :
    (name : String) (p r : Scraped) (cs : List Change)
    → some_change (change name p r ++ cs) ≡ (differs name p r || some_change cs)
unfolding change
change-differs name p r cs = go (get_or name (codes "0") p == get_or name (codes "0") r)
  where
    go :
        (b : Bool)
        → some_change (
            (if b
              then []
              else record {
                name = name;
                old_value = get_or name (codes "0") p;
                new_value = get_or name (codes "0") r;
              }
                ∷ [])
            ++ cs)
          ≡ (not b || some_change cs)
    go true = refl
    go false = refl

changes-differ : (p r : Scraped) → some_change (changes p r) ≡ is_news (some p) (some r)
unfolding changes
changes-differ p r =
    change-differs "tc" p r (change "ua" p r ++ (change "le" p r ++ change "oa" p r))
    ∙ ap (λ b. differs "tc" p r || b)
        (change-differs "ua" p r (change "le" p r ++ change "oa" p r)
          ∙ ap (λ b. differs "ua" p r || b)
              (change-differs "le" p r (change "oa" p r)
                ∙ ap (λ b. differs "le" p r || b) (one "oa")))
  where
    one : (name : String) → some_change (change name p r) ≡ differs name p r
    one name = ground arith

by_code-Distinct :
    (rs : List Scraped) (d : Dict Text Scraped) → Distinct d → Distinct (by_code rs d)
unfolding by_code
by_code-Distinct [] d h = h
by_code-Distinct (r ∷ rs) d h = by_code-Distinct rs _ (go (get_or "subject_code" [] r))
  where
    go : (code : Text) → Distinct (add_code code r d)
    go [] = h
    go (c ∷ s) = insert-Distinct (c ∷ s) r d h

any-append : (p : Event → Bool) (xs ys : List Event) → any p (xs ++ ys) ≡ (any p xs || any p ys)
any-append p [] ys = refl
any-append p (x ∷ xs) ys = ground (arith, any-append p xs ys)

subject_events-about :
    (user_id : ℕ) (prev_map : Dict Text Scraped) (k code : Text) (rec : Scraped)
    → any (about code) (subject_events user_id prev_map k rec)
      ≡ ((k == code) && is_news (lookup k prev_map) (some rec))
unfolding subject_events absence
subject_events-about user_id prev_map k code rec = ground arith

or_none : (prev : Option Scraped) (b : Bool) → (b || is_news prev none) ≡ b
or_none prev true = refl
or_none prev false = refl

compare_all-about :
    (user_id : ℕ) (prev_map d : Dict Text Scraped) (code : Text)
    → Distinct d
    → any (about code) (compare_all user_id prev_map d)
      ≡ is_news (lookup code prev_map) (lookup code d)
unfolding compare_all lookup
compare_all-about user_id prev_map [] code h = refl
compare_all-about user_id prev_map ((k, rec) ∷ d) code h =
    any-append (about code) (subject_events user_id prev_map k rec) (compare_all user_id prev_map d)
    ∙ (rw
        (
          subject_events-about user_id prev_map k code rec,
          compare_all-about user_id prev_map d code h.1,
        )
        (go (k == code) refl))
  where
    go :
        (b : Bool)
        → (k == code) ≡ b
        → ((b && is_news (lookup k prev_map) (some rec))
            || is_news (lookup code prev_map) (lookup code d))
          ≡ is_news (lookup code prev_map) (if b then some rec else lookup code d)
    go true e =
        let same : k ≡ code = (text_beq_iff k code).0 e in
        rw (← same) (rw h.0 (or_none (lookup k prev_map) (is_news (lookup k prev_map) (some rec))))
    go false e = refl

-- Between two snapshots a subject is reported exactly when it is news: it is new, or one of tc, ua, le
-- and oa reads differently. No other subject is, in particular none that was dropped.
pub detect_and_store_changes-about :
    (user_id : ℕ) (prev records : List Scraped) (baseline : Bool) (code : Text)
    → any (about code) (detect_and_store_changes user_id (some prev) records baseline)
      ≡ is_news (lookup code (by_code prev [])) (lookup code (by_code records []))
unfolding detect_and_store_changes
detect_and_store_changes-about user_id prev records baseline code =
    compare_all-about user_id (by_code prev []) (by_code records []) code
      (by_code-Distinct records [] tt)

differs-same : (name : String) (r : Scraped) → differs name r r ≡ false
differs-same name r = rw (beq_refl (get_or name (codes "0") r)) refl

-- A snapshot of the same records reports no subject.
pub unchanged_silent :
    (user_id : ℕ) (records : List Scraped) (baseline : Bool) (code : Text)
    → any (about code) (detect_and_store_changes user_id (some records) records baseline) ≡ false
unchanged_silent user_id records baseline code =
    detect_and_store_changes-about user_id records records baseline code
    ∙ go (lookup code (by_code records []))
  where
    go : (o : Option Scraped) → is_news o o ≡ false
    go none = refl
    go (some r) =
        ground (
          arith,
          differs-same "tc" r,
          differs-same "ua" r,
          differs-same "le" r,
          differs-same "oa" r,
        )
