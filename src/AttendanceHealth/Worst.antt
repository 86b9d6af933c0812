-- ===== src/AttendanceHealth/Worst.antt =====
-- The level of a whole summary of app/services/attendance_health.py.
use updatednitr.Prelude.{
  ℕ, ◌+◌, ◌≤◌, ◌<◌, ◌≡◌, refl, ◌∙◌, Bool, true, false, List, [], ◌∷◌, map, arith, if◌then◌else◌,
  ◌==◌, Dict, lookup, insert, lookup-insert, All, Member, Member-All, inl, inr, ◌⊎◌,
}
use updatednitr.AttendanceHealth.Subject.{
  Level, debarred, danger, risk, warn, safe, unknown, no_classes, SubjectHealth, Scraped,
  subject_health,
}
use updatednitr.AttendanceHealth.Summary.{
  rank, level_eq, level_beq_iff, level_order, or_safe, count_of, tally, first_counted, level_of_all,
  AttendanceSummary, summarize,
}

-- How many subjects are at a level.
abbrev pub count : Level → List SubjectHealth → ℕ
count l [] = 0
count l (s ∷ ss) = (if s.level == l then 1 else 0) + count l ss

count_of-insert :
    (l k : Level) (n : ℕ) (counts : Dict Level ℕ)
    → count_of l (insert k n counts) ≡ (if k == l then n else count_of l counts)
count_of-insert l k n counts = rw (lookup-insert k l n counts) (ground arith)

count_of-tally :
    (l : Level) (ss : List SubjectHealth) (counts : Dict Level ℕ)
    → count_of l (tally ss counts) ≡ count_of l counts + count l ss
unfolding tally
count_of-tally l [] counts = omega arith
count_of-tally l (s ∷ ss) counts =
    count_of-tally l ss (insert s.level (count_of s.level counts + 1) counts)
    ∙ ground (
      arith,
      count_of-insert l s.level (count_of s.level counts + 1) counts,
      level_beq_iff s.level l,
    )

count_of-empty : (l : Level) → count_of l [] ≡ 0
unfolding lookup
count_of-empty l = refl

first_counted-worst :
    (k : Level) (counts : Dict Level ℕ)
    → 0 < count_of k counts
    → (rank (or_safe (first_counted level_order counts)) ≤ rank k)
      × (0 < count_of (or_safe (first_counted level_order counts)) counts)
unfolding first_counted
first_counted-worst debarred counts h = ground arith
first_counted-worst danger counts h = ground arith
first_counted-worst risk counts h = ground arith
first_counted-worst warn counts h = ground arith
first_counted-worst safe counts h = ground arith
first_counted-worst unknown counts h = ground arith
first_counted-worst no_classes counts h = ground arith

count-Member : (s : SubjectHealth) (ss : List SubjectHealth) → Member s ss → 0 < count s.level ss
count-Member s [] m = elim m [ ]
count-Member s (t ∷ ss) (inl e) = rw e (ground (arith, level_beq_iff t.level t.level))
count-Member s (t ∷ ss) (inr m) = ground (arith, count-Member s ss m)

-- A subject of the list that is at the level.
pub record IsAt (l : Level) (ss : List SubjectHealth) : Type 0 where
  pub subject : SubjectHealth
  pub listed : Member subject ss
  pub at : subject.level ≡ l

count-IsAt : (l : Level) (ss : List SubjectHealth) → 0 < count l ss → IsAt l ss
count-IsAt l [] h = absurd (omega arith)
count-IsAt l (s ∷ ss) h = go (s.level == l) refl h (count-IsAt l ss)
  where
    go :
        (b : Bool)
        → (s.level == l) ≡ b
        → 0 < (if b then 1 else 0) + count l ss
        → (0 < count l ss → IsAt l ss)
        → IsAt l (s ∷ ss)
    go true e h ih = record { subject = s; listed = inl refl; at = (level_beq_iff s.level l).0 e }
    go false e h ih =
        let r = ih (omega arith) in record { subject = r.subject; listed = inr r.listed; at = r.at }

-- What the summary's level has to be.
pub record IsWorst (a : AttendanceSummary) : Type 0 where
  pub reached : (a.subjects ≡ []) ⊎ IsAt a.level a.subjects
  pub bound : All (λ s. rank a.level ≤ rank s.level) a.subjects
  pub counted : (l : Level) → count_of l a.counts ≡ count l a.subjects

level_of_all-worst :
    (ss : List SubjectHealth) (s : SubjectHealth)
    → Member s ss
    → (rank (level_of_all ss (tally ss [])) ≤ rank s.level)
      × (0 < count_of (level_of_all ss (tally ss [])) (tally ss []))
level_of_all-worst [] s m = elim m [ ]
level_of_all-worst (t ∷ ss) s m = first_counted-worst s.level (tally (t ∷ ss) []) (
    omega (
      arith,
      count-Member s (t ∷ ss) m,
      count_of-tally s.level (t ∷ ss) [],
      count_of-empty s.level,
    ))

level_of_all-reached :
    (ss : List SubjectHealth) → (ss ≡ []) ⊎ IsAt (level_of_all ss (tally ss [])) ss
level_of_all-reached [] = inl refl
level_of_all-reached (t ∷ ss) =
    let l = level_of_all (t ∷ ss) (tally (t ∷ ss) []) in
    let h = (level_of_all-worst (t ∷ ss) t (inl refl)).1 in
    inr (count-IsAt l (t ∷ ss) (omega (arith, h, count_of-tally l (t ∷ ss) [], count_of-empty l)))

-- The level of a summary is that of one of its subjects, and none of them is at a worse one; the counts
-- are the numbers of subjects at each level.
pub summarize-IsWorst : (records : List Scraped) → IsWorst (summarize records)
unfolding summarize
summarize-IsWorst records =
    let ss = map subject_health records in
    record {
      reached = level_of_all-reached ss;
      bound =
          Member-All (λ s. rank (level_of_all ss (tally ss [])) ≤ rank s.level) ss
            (λ s m. (level_of_all-worst ss s m).0);
      counted = λ l. omega (arith, count_of-tally l ss [], count_of-empty l);
    }
