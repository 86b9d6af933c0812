-- ===== src/AttendanceHealth/Alerts.antt =====
-- What skips_left_line of app/services/attendance_health.py says, against the levels.
use mathlib.Core.Path.{subst}
use updatednitr.Prelude.{
  ℕ, suc, ◌⊎◌, inl, inr, Bool-cases, ◌+◌, ◌-◌, ◌≤◌, ◌<◌, ◌≡◌, ◌≢◌, refl, Bool, true, false, Option,
  none, some, arith, if◌then◌else◌, string_eq,
}
use updatednitr.AttendanceHealth.Numbers.{ℤ, pos, negsuc, pos_part, neg_part, leb_ℤ, ◌-ℤ◌, sub_ℕ}
use updatednitr.AttendanceHealth.Subject.{
  DebarRule, Level, debarred, danger, risk, warn, safe, unknown, no_classes, level_of, Scraped,
  SubjectHealth, rate, subject_health, read_health, not_started, Line, skips_left, line, line_of,
  is_danger, skips_left_line,
}

-- More absences.
abbrev pub plus : ℤ → ℕ → ℤ
plus a n = sub_ℕ (pos_part a + n) (neg_part a)

level_of-alive :
    (r : DebarRule) (ua oa : ℤ)
    → level_of r ua oa ≢ debarred
    → pos_part ua < r.ua_limit + neg_part ua
unfolding level_of
level_of-alive r ua oa h = ground (arith, h)

level_of-dead :
    (r : DebarRule) (ua oa : ℤ)
    → r.ua_limit + neg_part ua ≤ pos_part ua
    → level_of r ua oa ≡ debarred
unfolding level_of
level_of-dead r ua oa h = ground arith

level_of-over :
    (r : DebarRule) (ua oa : ℤ) → leb_ℤ oa (pos r.oa_cap) ≡ false → level_of r ua oa ≡ debarred
unfolding level_of
level_of-over r ua oa h = ground arith

-- The line tells how many more unauthorised absences reach the limit of these, `left + 1` of them. An
-- unauthorised absence is one of all absences too, and the line does not look at their cap: `capped`.
pub record IsExact (h : SubjectHealth) (l : Line) : Type 0 where
  pub rule : DebarRule
  pub left : ℕ
  pub known : h.rule ≡ some rule
  pub urgent : Bool
  pub says : l ≡ skips_left urgent h.code (pos (suc left)) rule.ua_limit
  pub short : pos_part (plus h.ua left) < rule.ua_limit + neg_part (plus h.ua left)
  pub dead : (oa : ℤ) → level_of rule (plus h.ua (suc left)) oa ≡ debarred
  pub capped :
      (leb_ℤ (plus h.oa 1) (pos rule.oa_cap) ≡ true)
      ⊎ ((ua : ℤ) → level_of rule ua (plus h.oa 1) ≡ debarred)

rest :
    (r : DebarRule) (ua : ℤ)
    → pos_part ua < r.ua_limit + neg_part ua
    → (n : ℕ) × (pos r.ua_limit -ℤ ua ≡ pos (suc n))
      × (pos_part ua + suc n ≡ r.ua_limit + neg_part ua)
unfolding ◌-ℤ◌
rest r (pos n) h = (r.ua_limit - n - 1, ground arith, omega arith)
rest r (negsuc n) h = (r.ua_limit + n, ground arith, omega arith)

plus_alive :
    (r : DebarRule) (ua : ℤ) (n : ℕ)
    → pos_part ua + suc n ≡ r.ua_limit + neg_part ua
    → pos_part (plus ua n) < r.ua_limit + neg_part (plus ua n)
plus_alive r ua n h = ground arith

plus_dead :
    (r : DebarRule) (ua : ℤ) (n : ℕ)
    → pos_part ua + suc n ≡ r.ua_limit + neg_part ua
    → r.ua_limit + neg_part (plus ua (suc n)) ≤ pos_part (plus ua (suc n))
plus_dead r ua n h = ground arith

line-left :
    (h : SubjectHealth) (r : DebarRule) (left : ℤ) (n : ℕ)
    → left ≡ pos (suc n)
    → line h r (some left) ≡ some (skips_left (is_danger h.level) h.code (pos (suc n)) r.ua_limit)
line-left h r left n e = rw e (ground arith)

alive-IsExact :
    (h : SubjectHealth) (r : DebarRule) (l : Line)
    → level_of r h.ua h.oa ≢ debarred
    → line (rate (some r) h) r (rate (some r) h).ua_left ≡ some l
    → (rate (some r) h).rule ≡ some r
    → IsExact (rate (some r) h) l
unfolding level_of
alive-IsExact h r l a e known =
    let short = level_of-alive r h.ua h.oa a in
    let (n, left, sum) = rest r h.ua short in
    record {
      rule = r;
      left = n;
      known = known;
      urgent = is_danger (level_of r h.ua h.oa);
      says = ground (arith, e, line-left (rate (some r) h) r (pos r.ua_limit -ℤ h.ua) n left);
      short = plus_alive r h.ua n sum;
      dead = λ oa. level_of-dead r (plus h.ua (suc n)) oa (plus_dead r h.ua n sum);
      capped = elim (Bool-cases (leb_ℤ (plus h.oa 1) (pos r.oa_cap))) [
        | inl e ↦ inl e
        | inr e ↦ inr (λ ua. level_of-over r ua (plus h.oa 1) e)
      ];
    }

rated-IsExact :
    (h : SubjectHealth) (r : DebarRule) (l : Line) (lv : Level)
    → level_of r h.ua h.oa ≡ lv
    → line_of (rate (some r) h) (some r) lv ≡ some l
    → h.rule ≡ some r
    → IsExact (rate (some r) h) l
rated-IsExact h r l debarred e q k = ground (arith, q)
rated-IsExact h r l no_classes e q k = ground (arith, q)
rated-IsExact h r l danger e q k = alive-IsExact h r l (λ d. ground (arith, d, e)) q k
rated-IsExact h r l risk e q k = alive-IsExact h r l (λ d. ground (arith, d, e)) q k
rated-IsExact h r l warn e q k = alive-IsExact h r l (λ d. ground (arith, d, e)) q k
rated-IsExact h r l safe e q k = alive-IsExact h r l (λ d. ground (arith, d, e)) q k
rated-IsExact h r l unknown e q k = alive-IsExact h r l (λ d. ground (arith, d, e)) q k

finished-IsExact :
    (h : SubjectHealth) (l : Line) (started : Bool) (o : Option DebarRule)
    → h.rule ≡ o
    → let g = (if started then record h { level = no_classes } else rate o h) in
      line_of g g.rule g.level ≡ some l
      → IsExact (if started then record h { level = no_classes } else rate o h) l
unfolding level_of
finished-IsExact h l true none k q = ground (arith, k, q)
finished-IsExact h l true (some r) k q = ground (arith, k, q)
finished-IsExact h l false none k q = ground (arith, k, q)
finished-IsExact h l false (some r) k q =
    rated-IsExact h r l (level_of r h.ua h.oa) refl
      (subst (λ o. line_of (rate (some r) h) o (level_of r h.ua h.oa) ≡ some l) k q) k

-- Whatever the record, a line that skips_left_line makes is never the last warning: it says that some
-- absences are left, at least one. With exactly that many more unauthorised absences their limit is
-- reached, which costs the course whatever the other counts are, and with one fewer it is not; so a
-- student whose next one reaches the limit reads `1 skip(s) left`. The line does not look at the cap of
-- all absences: where one more exceeds it, the next absence costs the course whatever the line says.
pub skips_left_line-IsExact :
    (scraped : Scraped) (l : Line)
    → skips_left_line scraped ≡ some l
    → IsExact (subject_health scraped) l
unfolding skips_left_line subject_health
skips_left_line-IsExact scraped l q =
    let h = read_health scraped in finished-IsExact h l (not_started h) h.rule refl q
