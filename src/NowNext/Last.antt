-- ===== src/NowNext/Last.antt =====
-- app/services/now_next_service.py: the flags after the last class of a week.
use mathlib.Core.Bool.{true≢false}
use updatednitr.Prelude.{
  ℕ, zero, suc, ◌+◌, ◌%◌, ◌≤◌, ◌<◌, ◌≡◌, refl, sym, ◌∙◌, false, Option, none, some, List, [], ◌∷◌,
  arith, All, All-Member, nat_eq,
}
use updatednitr.NowNext.Slots.{ClassSlot, Moment}
use updatednitr.NowNext.Resolve.{is_candidate, first_candidate, search, resolve_now_and_next}
use updatednitr.NowNext.Order.{IsFirst}
use updatednitr.NowNext.Earliest.{day_of, day_of-IsFirst, Member-of_day}

-- A row of today that has begun.
abbrev pub HasBegun : Moment → ClassSlot → Type 0
HasBegun now e = (e.weekday ≡ now.weekday) × (e.start_time ≤ now.time)

begun_is_no_candidate :
    (offset time : ℕ) (s : ClassSlot)
    → offset ≡ 0
    → s.start_time ≤ time
    → is_candidate offset time s ≡ false
begun_is_no_candidate offset time s e h = ground (arith, nat_eq.same_iff offset 0, e, h)

module _ (entries : List ClassSlot) (now : Moment) (begun : All (HasBegun now) entries)
    (week : now.weekday < 7) where
  search_nothing : (left offset : ℕ) → offset + left ≤ 7 → search entries now left offset ≡ none
  unfolding search
  search_nothing zero offset h = refl
  search_nothing (suc left) offset h =
      go (first_candidate offset now.time (day_of entries now offset))
        (day_of-IsFirst entries now offset) (search_nothing left (offset + 1) (omega (arith, h)))
    where
      go :
          (f : Option ClassSlot)
          → IsFirst offset now.time (day_of entries now offset) f
          → search entries now left (offset + 1) ≡ none
          → elim f as (λ x. Option (ClassSlot × ℕ)) [
            | some s ↦ some (s, offset)
            | none ↦ search entries now left (offset + 1)
          ]
            ≡ none
      go none i r = r
      go (some s) i r =
          let found = Member-of_day entries now offset s i.0 in
          let today = All-Member (HasBegun now) s entries found.0 begun in
          let same : (now.weekday + offset) % 7 ≡ now.weekday = sym found.1 ∙ today.0 in
          absurd (
            true≢false (
              sym i.1
              ∙ begun_is_no_candidate offset now.time s (omega (arith, h, same, week)) today.1))

-- When every class of a timetable is today's and has begun, no class is announced and the day does not
-- count as done, with a lookahead of up to a week: the class that comes in seven days is out of reach.
pub last_class-forgotten :
    (lookahead grace : ℕ) (entries : List ClassSlot) (now : Moment)
    → All (HasBegun now) entries
    → now.weekday < 7
    → lookahead ≤ 7
    → ((resolve_now_and_next lookahead grace entries now).next_class ≡ none)
      × ((resolve_now_and_next lookahead grace entries now).is_day_done ≡ false)
unfolding resolve_now_and_next
last_class-forgotten lookahead grace [] now begun week h = (refl, refl)
last_class-forgotten lookahead grace (e ∷ es) now begun week h =
    let nothing = search_nothing (e ∷ es) now begun week lookahead 0 (omega (arith, h)) in
    (rw nothing refl, ground (arith, nothing))
