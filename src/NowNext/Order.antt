-- ===== src/NowNext/Order.antt =====
-- The slots of a day, in the order of their starts, and the first of them that can be the next class.
use updatednitr.Prelude.{
  ℕ, ◌≤◌, ◌≡◌, ◌⊎◌, inl, inr, refl, Bool, true, false, Option, none, some, List, [], ◌∷◌, arith,
  All, Member, Member-keep, leb, if◌then◌else◌, ◌==◌, nat_eq, keep,
}
use updatednitr.NowNext.Slots.{ClassSlot, insert_by_start, sort_by_start, by_day}
use updatednitr.NowNext.Resolve.{is_candidate, first_candidate}

abbrev IsSorted : List ClassSlot → Type 0
IsSorted [] = Unit
IsSorted (s ∷ ss) = All (λ x. s.start_time ≤ x.start_time) ss × IsSorted ss

module _ (P : ClassSlot → Type 0) where
  insert_by_start-All :
      (s : ClassSlot) (ss : List ClassSlot) → P s → All P ss → All P (insert_by_start s ss)
  unfolding insert_by_start
  insert_by_start-All s [] h k = (h, tt)
  insert_by_start-All s (x ∷ xs) h k =
      go (leb s.start_time x.start_time) (insert_by_start-All s xs h k.1)
    where
      go :
          (b : Bool)
          → All P (insert_by_start s xs)
          → All P (if b then s ∷ (x ∷ xs) else x ∷ insert_by_start s xs)
      go true r = (h, k)
      go false r = (k.0, r)

All-le :
    (a b : ℕ) (ss : List ClassSlot)
    → a ≤ b
    → All (λ x. b ≤ x.start_time) ss
    → All (λ x. a ≤ x.start_time) ss
All-le a b [] h k = tt
All-le a b (x ∷ xs) h k = (omega (arith, h, k.0), All-le a b xs h k.1)

insert_by_start-IsSorted :
    (s : ClassSlot) (ss : List ClassSlot) → IsSorted ss → IsSorted (insert_by_start s ss)
unfolding insert_by_start
insert_by_start-IsSorted s [] h = (tt, tt)
insert_by_start-IsSorted s (x ∷ xs) h =
    go (leb s.start_time x.start_time) refl (insert_by_start-IsSorted s xs h.1)
  where
    go :
        (b : Bool)
        → leb s.start_time x.start_time ≡ b
        → IsSorted (insert_by_start s xs)
        → IsSorted (if b then s ∷ (x ∷ xs) else x ∷ insert_by_start s xs)
    go true e r =
        let below : s.start_time ≤ x.start_time = ground (arith, e) in
        ((below, All-le s.start_time x.start_time xs below h.0), h)
    go false e r =
        (insert_by_start-All (λ y. x.start_time ≤ y.start_time) s xs (ground (arith, e)) h.0, r)

sort_by_start-IsSorted : (ss : List ClassSlot) → IsSorted (sort_by_start ss)
unfolding sort_by_start
sort_by_start-IsSorted [] = tt
sort_by_start-IsSorted (s ∷ ss) =
    insert_by_start-IsSorted s (sort_by_start ss) (sort_by_start-IsSorted ss)

pub by_day-IsSorted : (entries : List ClassSlot) (d : ℕ) → IsSorted (by_day entries d)
unfolding by_day
by_day-IsSorted entries d = sort_by_start-IsSorted (keep (λ e. e.weekday == d) entries)

Member-insert_by_start :
    (e s : ClassSlot) (ss : List ClassSlot) → Member e (s ∷ ss) → Member e (insert_by_start s ss)
unfolding insert_by_start
Member-insert_by_start e s [] m = m
Member-insert_by_start e s (x ∷ xs) m =
    go (leb s.start_time x.start_time) m (Member-insert_by_start e s xs)
  where
    go :
        (b : Bool)
        → Member e (s ∷ (x ∷ xs))
        → (Member e (s ∷ xs) → Member e (insert_by_start s xs))
        → Member e (if b then s ∷ (x ∷ xs) else x ∷ insert_by_start s xs)
    go true m r = m
    go false (inl h) r = inr (r (inl h))
    go false (inr (inl h)) r = inl h
    go false (inr (inr h)) r = inr (r (inr h))

Member-sort_by_start :
    (e : ClassSlot) (ss : List ClassSlot) → Member e ss → Member e (sort_by_start ss)
unfolding sort_by_start
Member-sort_by_start e [] m = m
Member-sort_by_start e (s ∷ ss) (inl h) = Member-insert_by_start e s (sort_by_start ss) (inl h)
Member-sort_by_start e (s ∷ ss) (inr m) =
    Member-insert_by_start e s (sort_by_start ss) (inr (Member-sort_by_start e ss m))

pub Member-by_day :
    (e : ClassSlot) (entries : List ClassSlot) (d : ℕ)
    → Member e entries
    → e.weekday ≡ d
    → Member e (by_day entries d)
unfolding by_day
Member-by_day e entries d m h =
    Member-sort_by_start e (keep (λ e. e.weekday == d) entries)
      (Member-keep (λ e. e.weekday == d) e entries m ((nat_eq.same_iff e.weekday d).1 h))

-- What is kept of a day: rows of the timetable on that day.
pub by_day-All :
    (P : ClassSlot → Type 0) (entries : List ClassSlot) (d : ℕ)
    → All P (keep (λ e. e.weekday == d) entries)
    → All P (by_day entries d)
unfolding by_day sort_by_start
by_day-All P entries d h = go (keep (λ e. e.weekday == d) entries) h
  where
    go : (ss : List ClassSlot) → All P ss → All P (sort_by_start ss)
    go [] h = tt
    go (s ∷ ss) h = insert_by_start-All P s (sort_by_start ss) h.0 (go ss h.1)

-- The first candidate of a sorted day: none comes before it, and there is none if it is none.
abbrev pub IsFirst : (offset now : ℕ) → List ClassSlot → Option ClassSlot → Type 0
IsFirst offset now ss none = All (λ e. is_candidate offset now e ≡ false) ss
IsFirst offset now ss (some s) =
    Member s ss
    × (is_candidate offset now s ≡ true)
    × All (λ e. (is_candidate offset now e ≡ false) ⊎ (s.start_time ≤ e.start_time)) ss

All-inr : (P Q : ClassSlot → Type 0) (ss : List ClassSlot) → All Q ss → All (λ e. P e ⊎ Q e) ss
All-inr P Q [] h = tt
All-inr P Q (x ∷ xs) h = (inr h.0, All-inr P Q xs h.1)

pub first_candidate-IsFirst :
    (offset now : ℕ) (ss : List ClassSlot)
    → IsSorted ss
    → IsFirst offset now ss (first_candidate offset now ss)
unfolding first_candidate
first_candidate-IsFirst offset now [] h = tt
first_candidate-IsFirst offset now (s ∷ ss) h =
    go (is_candidate offset now s) refl (first_candidate offset now ss)
      (first_candidate-IsFirst offset now ss h.1)
  where
    go :
        (b : Bool)
        → is_candidate offset now s ≡ b
        → (later : Option ClassSlot) → IsFirst offset now ss later
        → IsFirst offset now (s ∷ ss) (if b then some s else later)
    go true e later r = (inl refl, e, (inr (omega arith), All-inr _ _ ss h.0))
    go false e none r = (e, r)
    go false e (some t) r = (inr r.0, r.1, (inl e, r.2))
