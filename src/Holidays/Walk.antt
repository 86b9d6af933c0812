-- ===== src/Holidays/Walk.antt =====
-- The walk of fetch_user_holidays (app/services/holidays_service.py) through the portal's calendar.
use mathlib.Core.Path.{subst}
use mathlib.Core.Bool.{true≢false}
use updatednitr.Prelude.{
  ℕ, zero, suc, ◌+◌, ◌*◌, ◌≤◌, ◌<◌, ◌≡◌, refl, sym, ◌∙◌, ap, ◌⊎◌, inl, inr, true, false, none, some,
  ◌∷◌, Text, arith, Bool-cases, lower, ◌==◌, text_eq, text_beq_iff, beq_refl,
}
use updatednitr.Holidays.Pages.{HolidaysPage}
use updatednitr.Holidays.Months.{
  Direction, prev, next, label, label_to_ym, step_month, step_direction,
}
use updatednitr.Holidays.Labels.{label_to_ym-label, label_to_ym-lower_label}
use updatednitr.Holidays.Cache.{Calendar, cache_intermediate_page}
use updatednitr.Holidays.Fetch.{Navigate, Attempt, done, walk, argument}

-- The months of a calendar, counted through.
abbrev pub serial : ℕ × ℕ → ℕ
serial (y, m) = y * 12 + m

abbrev pub IsMonth : ℕ × ℕ → Type 0
IsMonth (y, m) = (999 < y) × (y < 10000) × (1 ≤ m) × (m ≤ 12)

-- A page shows a month under the label that the program itself would give it.
pub record IsLabelled (page : HolidaysPage) : Type 0 where
  pub month : IsMonth (page.year, page.month)
  pub label : page.month_label ≡ label (page.year, page.month)

-- A page has the link of a step.
abbrev pub HasLink : HolidaysPage → Direction → Type 0
HasLink page d = (c : ℕ) × (s : Text) × (argument d page ≡ some (c ∷ s))

-- A page of a calendar that goes from the month counted `first` to the one counted `last`: it is labelled,
-- and has the links to the neighbours that the calendar has.
pub record IsOnCalendar (first last : ℕ) (page : HolidaysPage) : Type 0 where
  pub labelled : IsLabelled page
  pub back : (serial (page.year, page.month) ≤ first) ⊎ HasLink page prev
  pub forth : (last ≤ serial (page.year, page.month)) ⊎ HasLink page next

-- The portal's answer to a step is the page of the neighbouring month, one that it shows.
pub record IsStepped (Shown : HolidaysPage → Type 0) (page : HolidaysPage) (d : Direction)
    (a : Attempt) : Type 0 where
  pub there : HolidaysPage
  pub answers : a ≡ done there
  pub month : (there.year, there.month) ≡ step_month d (page.year, page.month)
  pub shown : Shown there

same_month : (a b : ℕ × ℕ) → IsMonth a → IsMonth b → serial a ≡ serial b → a ≡ b
same_month (y, m) (y', m') h k e =
    let year : y ≡ y' = omega arith in let month : m ≡ m' = omega arith in rw (year, month) refl

label_determines :
    (a b : ℕ × ℕ) → IsMonth a → IsMonth b → (lower (label a) == lower (label b)) ≡ true → a ≡ b
label_determines (y, m) (y', m') h k e =
    sym (label_to_ym-lower_label y m h.0 h.1 h.2 h.3)
    ∙ ap label_to_ym ((text_beq_iff _ _).0 e)
    ∙ label_to_ym-lower_label y' m' k.0 k.1 k.2 k.3

step_direction-same :
    (w : HolidaysPage) (s : Text)
    → (lower w.month_label == lower s) ≡ true
    → step_direction w s ≡ none
unfolding step_direction
step_direction-same w s e = rw e refl

step_direction-next :
    (w : HolidaysPage) (t : ℕ × ℕ)
    → IsMonth t
    → IsMonth (w.year, w.month)
    → (lower w.month_label == lower (label t)) ≡ false
    → serial (w.year, w.month) < serial t
    → step_direction w (label t) ≡ some next
unfolding step_direction
step_direction-next w (y, m) k h e lt = rw (e, label_to_ym-label y m k.0 k.1 k.2 k.3) (ground arith)

step_direction-prev :
    (w : HolidaysPage) (t : ℕ × ℕ)
    → IsMonth t
    → IsMonth (w.year, w.month)
    → (lower w.month_label == lower (label t)) ≡ false
    → serial t < serial (w.year, w.month)
    → step_direction w (label t) ≡ some prev
unfolding step_direction
step_direction-prev w (y, m) k h e lt = rw (e, label_to_ym-label y m k.0 k.1 k.2 k.3) (ground arith)

step_month-next :
    (a t : ℕ × ℕ)
    → IsMonth a
    → IsMonth t
    → serial a < serial t
    → IsMonth (step_month next a) × (serial (step_month next a) ≡ serial a + 1)
unfolding step_month
step_month-next (y, m) (y', m') h k lt = ground arith

step_month-prev :
    (a t : ℕ × ℕ)
    → IsMonth a
    → IsMonth t
    → serial t < serial a
    → IsMonth (step_month prev a) × (serial (step_month prev a) + 1 ≡ serial a)
unfolding step_month
step_month-prev (y, m) (y', m') h k lt = ground arith

-- What the walk comes to: a page of the month.
pub record IsArrived (t : ℕ × ℕ) (a : Attempt) : Type 0 where
  pub there : HolidaysPage
  pub returns : a ≡ done there
  pub month : (there.year, there.month) ≡ t

walk-here :
    (left : ℕ) (clock : ℕ → ℕ) (navigate : Navigate) (s : Text) (c : Calendar) (w : HolidaysPage)
    → step_direction w s ≡ none
    → (walk left clock navigate s c w).1 ≡ done w
unfolding walk
walk-here zero clock navigate s c w e = refl
walk-here (suc left) clock navigate s c w e = rw (e, walk) refl

pub walk-step :
    (left : ℕ) (clock : ℕ → ℕ) (navigate : Navigate) (s : Text) (c : Calendar) (w : HolidaysPage)
    (d : Direction) (there : HolidaysPage)
    → step_direction w s ≡ some d
    → navigate w d ≡ done there
    → walk (suc left) clock navigate s c w
      ≡ walk left clock navigate s (cache_intermediate_page (clock left) there c) there
unfolding walk
walk-step left clock navigate s c w d there e f = rw (e, walk) (rw (f, walk) refl)

walk-zero :
    (clock : ℕ → ℕ) (navigate : Navigate) (s : Text) (c : Calendar) (w : HolidaysPage)
    → (walk zero clock navigate s c w).1 ≡ done w
unfolding walk
walk-zero clock navigate s c w = refl

compared : (a b : ℕ) → (a < b) ⊎ ((a ≡ b) ⊎ (b < a))
compared a b = omega arith

same_label :
    (w : HolidaysPage) (t : ℕ × ℕ)
    → IsLabelled w
    → IsMonth t
    → serial (w.year, w.month) ≡ serial t
    → (lower w.month_label == lower (label t)) ≡ true
same_label w t h k e =
    rw (h.label, same_month (w.year, w.month) t h.month k e) (beq_refl (lower (label t)))

pub arrived :
    (w : HolidaysPage) (t : ℕ × ℕ)
    → IsLabelled w
    → IsMonth t
    → (lower w.month_label == lower (label t)) ≡ true
    → (w.year, w.month) ≡ t
arrived w t h k e =
    label_determines (w.year, w.month) t h.month k
      (subst (λ s. (lower s == lower (label t)) ≡ true) h.label e)

module _ (t : ℕ × ℕ) (known : IsMonth t) (clock : ℕ → ℕ) (navigate : Navigate) (first last : ℕ)
    (Shown : HolidaysPage → Type 0)
    (on : (page : HolidaysPage) → Shown page → IsOnCalendar first last page)
    (since : first ≤ serial t) (until : serial t ≤ last)
    (portal : (page : HolidaysPage) (d : Direction)
      → Shown page
      → HasLink page d
      → IsStepped Shown page d (navigate page d)) where
  link_forth :
      (w : HolidaysPage)
      → IsOnCalendar first last w
      → serial (w.year, w.month) < serial t
      → HasLink w next
  link_forth w o lt = elim o.forth [ inl h ↦ absurd (omega (arith, h, lt, until)) | inr l ↦ l ]

  link_back :
      (w : HolidaysPage)
      → IsOnCalendar first last w
      → serial t < serial (w.year, w.month)
      → HasLink w prev
  link_back w o gt = elim o.back [ inl h ↦ absurd (omega (arith, h, gt, since)) | inr l ↦ l ]

  pub walk_near :
      (left : ℕ) (c : Calendar) (w : HolidaysPage)
      → Shown w
      → serial (w.year, w.month) ≤ serial t + left
      → serial t ≤ serial (w.year, w.month) + left
      → IsArrived t (walk left clock navigate (label t) c w).1
  walk_near zero c w x lo hi = record {
    there = w;
    returns = walk-zero clock navigate (label t) c w;
    month = same_month (w.year, w.month) t (on w x).labelled.month known (omega arith);
  }
  walk_near (suc left) c w x lo hi =
      let h : IsLabelled w = (on w x).labelled in
      elim (Bool-cases (lower w.month_label == lower (label t))) [
        | inl e ↦ record {
          there = w;
          returns =
              walk-here (suc left) clock navigate (label t) c w (step_direction-same w (label t) e);
          month = arrived w t h known e;
        }
        | inr e ↦ (elim (compared (serial (w.year, w.month)) (serial t)) [
          | inl lt ↦
              let n = (step_month-next (w.year, w.month) t h.month known lt).1 in
              let s = portal w next x (link_forth w (on w x) lt) in
              rw
                (walk-step left clock navigate (label t) c w next s.there
                  (step_direction-next w t known h.month e lt) s.answers)
                (walk_near left (cache_intermediate_page (clock left) s.there c) s.there s.shown
                  (omega (arith, n, ap serial s.month)) (omega (arith, n, ap serial s.month)))
          | inr (inl same) ↦ absurd (true≢false (sym (same_label w t h known same) ∙ e))
          | inr (inr gt) ↦
              let n = (step_month-prev (w.year, w.month) t h.month known gt).1 in
              let s = portal w prev x (link_back w (on w x) gt) in
              rw
                (walk-step left clock navigate (label t) c w prev s.there
                  (step_direction-prev w t known h.month e gt) s.answers)
                (walk_near left (cache_intermediate_page (clock left) s.there c) s.there s.shown
                  (omega (arith, n, ap serial s.month)) (omega (arith, n, ap serial s.month)))
        ])
      ]
