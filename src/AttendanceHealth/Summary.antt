-- ===== src/AttendanceHealth/Summary.antt =====
-- AttendanceSummary and summarize of app/services/attendance_health.py.
use updatednitr.Prelude.{
  ℕ, zero, suc, ◌+◌, ◌*◌, ◌≡◌, ◌↔◌, Bool, true, false, not, ◌&&◌, ◌||◌, Option, none, some, List,
  [], ◌∷◌, map, keep, arith, ltb, nat_beq, nat_beq_iff, if◌then◌else◌, Key, Dict, lookup, insert,
  any,
}
use updatednitr.AttendanceHealth.Numbers.{ℤ, pos, pos_part, neg_part, ltb_ℤ}
use updatednitr.AttendanceHealth.Subject.{
  Level, debarred, danger, risk, warn, safe, unknown, no_classes, Ratio, SubjectHealth, Scraped,
  subject_health,
}

-- The place of a level in _LEVEL_ORDER: the worst is 0.
abbrev pub rank : Level → ℕ
rank debarred = 0
rank danger = 1
rank risk = 2
rank warn = 3
rank safe = 4
rank unknown = 5
rank no_classes = 6

abbrev pub level_order : List Level
level_order = debarred ∷ danger ∷ risk ∷ warn ∷ safe ∷ unknown ∷ no_classes ∷ []

pub of_rank : ℕ → Level
of_rank zero = debarred
of_rank (suc zero) = danger
of_rank (suc (suc zero)) = risk
of_rank (suc (suc (suc zero))) = warn
of_rank (suc (suc (suc (suc zero)))) = safe
of_rank (suc (suc (suc (suc (suc zero))))) = unknown
of_rank (suc (suc (suc (suc (suc (suc n)))))) = no_classes

of_rank-rank : (l : Level) → of_rank (rank l) ≡ l
unfolding of_rank
of_rank-rank debarred = λ i. debarred
of_rank-rank danger = λ i. danger
of_rank-rank risk = λ i. risk
of_rank-rank warn = λ i. warn
of_rank-rank safe = λ i. safe
of_rank-rank unknown = λ i. unknown
of_rank-rank no_classes = λ i. no_classes

pub level_beq_iff : (a b : Level) → (nat_beq (rank a) (rank b) ≡ true) ↔ (a ≡ b)
level_beq_iff a b = ground (arith, nat_beq_iff (rank a) (rank b), of_rank-rank a, of_rank-rank b)

-- Levels are keys of the counts.
instance abbrev pub level_eq : Key Level
level_eq = record { same = λ a b. nat_beq (rank a) (rank b); same_iff = level_beq_iff }

-- counts.get(level, 0), which is also falsy when it is missing.
abbrev pub got : Option ℕ → ℕ
got none = 0
got (some n) = n

abbrev pub count_of : Level → Dict Level ℕ → ℕ
count_of l counts = got (lookup l counts)

unfoldable pub tally : List SubjectHealth → Dict Level ℕ → Dict Level ℕ
tally [] counts = counts
tally (s ∷ ss) counts = tally ss (insert s.level (count_of s.level counts + 1) counts)

-- The first level of the list that is counted.
unfoldable pub first_counted : List Level → Dict Level ℕ → Option Level
first_counted [] counts = none
first_counted (l ∷ ls) counts =
    let later = first_counted ls counts in if ltb 0 (count_of l counts) then some l else later

-- `used_ratio or 0.0` and `-(ua_left or 0)`, the key of the riskiest.
abbrev pub used_or_zero : Option Ratio → Ratio
used_or_zero none = record { part = pos 0; whole = 1 }
used_or_zero (some r) = r

abbrev pub left_or_zero : Option ℤ → ℤ
left_or_zero none = pos 0
left_or_zero (some n) = n

-- a / b < c / d, and equality.
abbrev pub ratio_lt : Ratio → Ratio → Bool
ratio_lt a b =
    ltb (pos_part a.part * b.whole + neg_part b.part * a.whole)
      (pos_part b.part * a.whole + neg_part a.part * b.whole)

-- The order of the keys: more used, then less left.
unfoldable pub riskier : SubjectHealth → SubjectHealth → Bool
riskier s t =
    ratio_lt (used_or_zero t.used) (used_or_zero s.used)
    || (not (ratio_lt (used_or_zero s.used) (used_or_zero t.used))
        && ltb_ℤ (left_or_zero s.ua_left) (left_or_zero t.ua_left))

-- max(): the first of the greatest.
unfoldable pub greatest : SubjectHealth → List SubjectHealth → SubjectHealth
unfolding riskier
greatest best [] = best
greatest best (s ∷ ss) = greatest (if riskier s best then s else best) ss

abbrev pub is_alive : SubjectHealth → Bool
is_alive s = elim s.rule [
  | none ↦ false
  | some r ↦ if nat_beq (rank s.level) 6 then false else true
]

abbrev pub riskiest_of : List SubjectHealth → Option SubjectHealth
unfolding greatest
riskiest_of [] = none
riskiest_of (s ∷ ss) = some (greatest s ss)

pub record AttendanceSummary : Type 0 where
  pub subjects : List SubjectHealth
  pub level : Level
  pub riskiest : Option SubjectHealth
  pub counts : Dict Level ℕ

abbrev pub or_safe : Option Level → Level
or_safe none = safe
or_safe (some l) = l

abbrev pub level_of_all : List SubjectHealth → Dict Level ℕ → Level
level_of_all [] counts = no_classes
level_of_all (s ∷ ss) counts = or_safe (first_counted level_order counts)

-- has_tracking
unfoldable pub has_tracking : AttendanceSummary → Bool
has_tracking a = any (λ s. elim s.rule [ none ↦ false | some r ↦ true ]) a.subjects

unfoldable pub summarize : List Scraped → AttendanceSummary
unfolding tally first_counted greatest
summarize records =
    let subjects = map subject_health records in
    let counts = tally subjects [] in
    record {
      subjects = subjects;
      level = level_of_all subjects counts;
      riskiest = riskiest_of (keep is_alive subjects);
      counts = counts;
    }
