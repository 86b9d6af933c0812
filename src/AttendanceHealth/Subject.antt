-- ===== src/AttendanceHealth/Subject.antt =====
-- DebarRule, SubjectHealth, subject_health and skips_left_line of app/services/attendance_health.py.
use updatednitr.Prelude.{
  ℕ, zero, suc, ◌+◌, ◌*◌, String, Bool, true, false, ◌&&◌, ◌||◌, Option, none, some, [], ◌∷◌, leb,
  if◌then◌else◌, nat_eq, string_eq, text_eq, Text, codes, Dict, lookup,
}
use updatednitr.AttendanceHealth.Numbers.{
  ℤ, pos, negsuc, pos_part, neg_part, ltb_ℤ, leb_ℤ, ◌-ℤ◌, to_int, normalize_ltp,
}

pub record DebarRule : Type 0 where
  pub ltp : Text
  pub ua_limit : ℕ
  pub oa_cap : ℕ

abbrev rule : String → ℕ → ℕ → Text × DebarRule
rule s ua oa = (codes s, record { ltp = codes s; ua_limit = ua; oa_cap = oa })

unfoldable pub debar_rules : Dict Text DebarRule
debar_rules =
    rule "3-1-0" 17 24
    ∷ rule "3-0-0" 13 18
    ∷ rule "2-0-0" 9 12
    ∷ rule "0-0-3" 5 6
    ∷ rule "1-0-2" 5 6
    ∷ rule "0-0-2" 5 6
    ∷ rule "0-0-1" 5 6
    ∷ []

unfoldable pub get_rule : Option Text → Option DebarRule
unfolding debar_rules
get_rule raw = elim (normalize_ltp raw) [ none ↦ none | some key ↦ lookup key debar_rules ]

pub data Level : Type 0 where
  debarred danger risk warn safe unknown no_classes : Level

-- A fraction, `part / whole`.
pub record Ratio : Type 0 where
  pub part : ℤ
  pub whole : ℕ

-- ua / limit, at most 1.
unfoldable pub used_ratio : ℤ → ℕ → Ratio
used_ratio ua zero = record { part = pos 0; whole = 1 }
used_ratio ua (suc n) =
    if leb_ℤ (pos (suc n)) ua
    then record { part = pos 1; whole = 1 }
    else record { part = ua; whole = suc n }

-- `r >= n / d`
abbrev pub at_least : ℕ → ℕ → Ratio → Bool
at_least n d r = leb (n * r.whole + d * neg_part r.part) (d * pos_part r.part)

pub record SubjectHealth : Type 0 where
  pub code : Text
  pub name : Text
  pub faculty : Text
  pub ltp : Text
  pub tc : ℤ
  pub ua : ℤ
  pub le : ℤ
  pub oa : ℤ
  pub rule : Option DebarRule
  pub level : Level
  pub ua_left : Option ℤ
  pub oa_left : Option ℤ
  pub used : Option Ratio

-- The chain of tests that sets the level. WARN_RATIO is 1/2, RISK_RATIO 4/5, DANGER_LEFT 2.
unfoldable pub level_of : DebarRule → (ua oa : ℤ) → Level
unfolding ◌-ℤ◌ used_ratio
level_of r ua oa =
    if leb_ℤ (pos r.ua_limit) ua || ltb_ℤ (pos r.oa_cap) oa
    then debarred
    else if leb_ℤ (pos r.ua_limit -ℤ ua) (pos 2) || leb_ℤ (pos r.oa_cap -ℤ oa) (pos 0)
    then danger
    else if at_least 4 5 (used_ratio ua r.ua_limit)
    then risk
    else if at_least 1 2 (used_ratio ua r.ua_limit)
    then warn
    else safe

-- A record of the snapshot: its texts by their keys. A null counts as missing.
abbrev pub Scraped : Type 0
Scraped = Dict String Text

-- str(record.get(key) or default)
abbrev pub text_or : Text → Option Text → Text
text_or default none = default
text_or default (some []) = default
text_or default (some (c ∷ s)) = c ∷ s

abbrev pub is_zero : ℤ → Bool
is_zero (pos zero) = true
is_zero (pos (suc n)) = false
is_zero (negsuc n) = false

abbrev pub rate : Option DebarRule → SubjectHealth → SubjectHealth
rate none h = record h { level = unknown }
rate (some r) h = record h {
  ua_left = some (pos r.ua_limit -ℤ h.ua);
  oa_left = some (pos r.oa_cap -ℤ h.oa);
  used = some (used_ratio h.ua r.ua_limit);
  level = level_of r h.ua h.oa;
}

-- The texts and numbers of the record, before a level is set.
unfoldable pub read_health : Scraped → SubjectHealth
unfolding get_rule
read_health scraped =
    let raw_ltp = lookup "ltp" scraped in
    record {
      code = text_or (codes "?") (lookup "subject_code" scraped);
      name = text_or [] (lookup "subject_name" scraped);
      faculty = text_or [] (lookup "faculty" scraped);
      ltp = text_or [] (normalize_ltp raw_ltp);
      tc = to_int (lookup "tc" scraped);
      ua = to_int (lookup "ua" scraped);
      le = to_int (lookup "le" scraped);
      oa = to_int (lookup "oa" scraped);
      rule = get_rule raw_ltp;
      level = safe;
      ua_left = none;
      oa_left = none;
      used = none;
    }

abbrev pub not_started : SubjectHealth → Bool
not_started h = is_zero h.tc && is_zero h.ua && is_zero h.le && is_zero h.oa

unfoldable pub subject_health : Scraped → SubjectHealth
unfolding level_of read_health
subject_health scraped =
    let h = read_health scraped in
    if not_started h then record h { level = no_classes } else rate h.rule h

-- The line of an alert: the course, its limit, and what is left. `urgent` is the tone of a danger.
pub data Line : Type 0 where
  next_skip_debars : (code : Text) → (limit : ℕ) → Line
  skips_left : (urgent : Bool) → (code : Text) → (left : ℤ) → (limit : ℕ) → Line

abbrev pub is_danger : Level → Bool
is_danger danger = true
is_danger _ = false

abbrev pub line : SubjectHealth → DebarRule → Option ℤ → Option Line
line h r none = none
line h r (some left) =
    if leb_ℤ left (pos 0)
    then some (next_skip_debars h.code r.ua_limit)
    else some (skips_left (is_danger h.level) h.code left r.ua_limit)

abbrev pub line_of : SubjectHealth → Option DebarRule → Level → Option Line
line_of h none _ = none
line_of h (some r) no_classes = none
line_of h (some r) debarred = none
line_of h (some r) _ = line h r h.ua_left

unfoldable pub skips_left_line : Scraped → Option Line
unfolding subject_health
skips_left_line scraped = let h = subject_health scraped in line_of h h.rule h.level
