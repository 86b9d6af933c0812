-- ===== src/NowNext/Earliest.antt =====
-- app/services/now_next_service.py: the next class is the earliest that is still to come.
use mathlib.Core.Bool.{true≢false}
use updatednitr.Prelude.{
  ℕ, zero, suc, ◌+◌, ◌%◌, ◌≤◌, ◌<◌, ◌≡◌, ◌⊎◌, inl, inr, refl, sym, ap, ◌∙◌, Bool, true, false,
  Option, none, some, List, [], ◌∷◌, arith, Member, All-Member, Member-All, Member-kept, Never,
  ◌==◌, nat_eq, keep,
}
use updatednitr.NowNext.Slots.{ClassSlot, Moment, by_day}
use updatednitr.NowNext.Resolve.{
  is_candidate, first_candidate, search, slot_of, offset_of, resolve_now_and_next,
}
use updatednitr.NowNext.Order.{
  IsFirst, first_candidate-IsFirst, by_day-IsSorted, by_day-All, Member-by_day,
}

-- There is a next class, and it is no later than `e`, `offset` days on.
abbrev pub IsNoLater : Option ClassSlot → (its_offset : ℕ) → ClassSlot → (offset : ℕ) → Type 0
IsNoLater none its_offset e offset = Never
IsNoLater (some s) its_offset e offset =
    (its_offset < offset) ⊎ ((its_offset ≡ offset) × (s.start_time ≤ e.start_time))

-- The next class, if there is one: a row of the timetable on that day, which is no break and, today, is
-- still to come.
abbrev pub IsToCome : List ClassSlot → Moment → Option ClassSlot → ℕ → Type 0
IsToCome entries now none offset = Unit
IsToCome entries now (some s) offset =
    Member s entries
    × (s.weekday ≡ (now.weekday + offset) % 7)
    × (is_candidate offset now.time s ≡ true)

module _ (entries : List ClassSlot) (now : Moment) where
  abbrev pub day_of : ℕ → List ClassSlot
  day_of offset = by_day entries ((now.weekday + offset) % 7)

  pub day_of-IsFirst :
      (offset : ℕ)
      → IsFirst offset now.time (day_of offset) (first_candidate offset now.time (day_of offset))
  day_of-IsFirst offset =
      first_candidate-IsFirst offset now.time (day_of offset) (by_day-IsSorted entries _)

  search-IsNoLater :
      (left offset : ℕ) (e : ClassSlot) (o : ℕ)
      → Member e entries
      → e.weekday ≡ (now.weekday + o) % 7
      → is_candidate o now.time e ≡ true
      → offset ≤ o
      → o < offset + left
      → IsNoLater
          (slot_of (search entries now left offset))
          (offset_of (search entries now left offset))
          e
          o
  unfolding search
  search-IsNoLater zero offset e o m d c h k = absurd (omega (arith, h, k))
  search-IsNoLater (suc left) offset e o m d c h k =
      go (first_candidate offset now.time (day_of offset)) (day_of-IsFirst offset) (offset == o)
        refl (search entries now left (offset + 1))
        (λ l. search-IsNoLater left (offset + 1) e o m d c l (omega (arith, k)))
    where
      answer : Option ClassSlot → Option (ClassSlot × ℕ) → Option (ClassSlot × ℕ)
      answer f later = elim f [ some s ↦ some (s, offset) | none ↦ later ]

      -- e on the day of this round
      on_day : offset ≡ o → Member e (day_of offset)
      on_day q = Member-by_day e entries _ m (d ∙ ap (λ x. (now.weekday + x) % 7) (sym q))

      still : offset ≡ o → is_candidate offset now.time e ≡ true
      still q = ap (λ x. is_candidate x now.time e) q ∙ c

      first :
          (s : ClassSlot)
          → offset ≡ o
          → (is_candidate offset now.time e ≡ false) ⊎ (s.start_time ≤ e.start_time)
          → s.start_time ≤ e.start_time
      first s q (inl x) = absurd (true≢false (sym (still q) ∙ x))
      first s q (inr x) = x

      go :
          (f : Option ClassSlot)
          → IsFirst offset now.time (day_of offset) f
          → (b : Bool) → (offset == o) ≡ b
          → (later : Option (ClassSlot × ℕ))
          → (offset + 1 ≤ o → IsNoLater (slot_of later) (offset_of later) e o)
          → IsNoLater (slot_of (answer f later)) (offset_of (answer f later)) e o
      go (some s) i true x later r =
          let q = (nat_eq.same_iff offset o).0 x in
          inr (q, first s q (All-Member _ e (day_of offset) (on_day q) i.2))
      go none i true x later r =
          let q = (nat_eq.same_iff offset o).0 x in
          absurd (true≢false (sym (still q) ∙ All-Member _ e (day_of offset) (on_day q) i))
      go (some s) i false x later r = inl (ground (arith, h, x, nat_eq.same_iff offset o))
      go none i false x later r = r (ground (arith, h, x, nat_eq.same_iff offset o))

  pub Member-of_day :
      (offset : ℕ) (s : ClassSlot)
      → Member s (by_day entries ((now.weekday + offset) % 7))
      → Member s entries × (s.weekday ≡ (now.weekday + offset) % 7)
  Member-of_day offset s m = All-Member _ s (day_of offset) m (
      by_day-All (λ s. Member s entries × (s.weekday ≡ (now.weekday + offset) % 7)) entries _
        (Member-All _ (keep (λ e. e.weekday == ((now.weekday + offset) % 7)) entries) (λ x n.
          let kept = Member-kept (λ e. e.weekday == ((now.weekday + offset) % 7)) x entries n in
          (kept.0, (nat_eq.same_iff x.weekday ((now.weekday + offset) % 7)).0 kept.1))))

  search-IsToCome :
      (left offset : ℕ)
      → IsToCome entries now
          (slot_of (search entries now left offset))
          (offset_of (search entries now left offset))
  unfolding search
  search-IsToCome zero offset = tt
  search-IsToCome (suc left) offset =
      go (first_candidate offset now.time (day_of offset)) (day_of-IsFirst offset)
        (search entries now left (offset + 1)) (search-IsToCome left (offset + 1))
    where
      go :
          (f : Option ClassSlot)
          → IsFirst offset now.time (day_of offset) f
          → (later : Option (ClassSlot × ℕ))
          → IsToCome entries now (slot_of later) (offset_of later)
          → IsToCome entries now
              (slot_of (elim f [ some s ↦ some (s, offset) | none ↦ later ]))
              (offset_of (elim f [ some s ↦ some (s, offset) | none ↦ later ]))
      go (some s) i later r = ((Member-of_day offset s i.0).0, (Member-of_day offset s i.0).1, i.1)
      go none i later r = r

-- resolve_now_and_next announces the earliest class to come: a row of the timetable on the announced day
-- that is no break and has not begun; and wherever the timetable has such a row within the lookahead, a
-- class is announced, which is not on a later day, nor later on the same day.
pub resolve-earliest :
    (lookahead grace : ℕ) (entries : List ClassSlot) (now : Moment) (e : ClassSlot) (offset : ℕ)
    → Member e entries
    → e.weekday ≡ (now.weekday + offset) % 7
    → is_candidate offset now.time e ≡ true
    → offset < lookahead
    → IsToCome entries now
        (resolve_now_and_next lookahead grace entries now).next_class
        (resolve_now_and_next lookahead grace entries now).next_class_day_offset
      × IsNoLater
          (resolve_now_and_next lookahead grace entries now).next_class
          (resolve_now_and_next lookahead grace entries now).next_class_day_offset
          e
          offset
unfolding resolve_now_and_next
resolve-earliest lookahead grace [] now e offset m d c h = elim m [ ]
resolve-earliest lookahead grace (x ∷ xs) now e offset m d c h = (
  search-IsToCome (x ∷ xs) now lookahead 0,
  search-IsNoLater (x ∷ xs) now lookahead 0 e offset m d c (omega arith) (omega (arith, h)),
)
