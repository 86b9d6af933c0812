-- ===== src/Client/Orders.antt =====
-- app/nitris/client.py: the orders in which the dropdowns are tried leave no option out and try none
-- twice.
use mathlib.Core.List.{Perm, perm_middle}
use mathlib.Core.List.Perm
use updatednitr.Prelude.{
  ℕ, ◌≡◌, Bool, true, false, not, Option, none, some, List, [], ◌∷◌, ◌++◌, keep, refl, leb,
  if◌then◌else◌, ◌==◌, nat_eq, text_eq, Text,
}
use updatednitr.Client.Options.{
  Choice, prioritize, get_prioritized_sessions, sort_by_key, insert_by_key, session_year,
  is_preferred, names_semester, get_sorted_academic_years, has_year, year_of,
}

-- A list, split by a test.
keep-Perm :
    (test : Choice → Bool) (os : List Choice)
    → Perm os (keep test os ++ keep (λ o. not (test o)) os)
keep-Perm test [] = Perm.rfl
keep-Perm test (o ∷ os) = go (test o) refl (keep-Perm test os)
  where
    go :
        (b : Bool)
        → test o ≡ b
        → Perm os (keep test os ++ keep (λ o. not (test o)) os)
        → Perm (o ∷ os) (
            (if b then o ∷ keep test os else keep test os)
            ++ (if not b then o ∷ keep (λ o. not (test o)) os else keep (λ o. not (test o)) os))
    go true e h = Perm.cons o h
    go false e h =
        Perm.trans (Perm.cons o h)
          (Perm.symm (perm_middle (keep test os) (keep (λ o. not (test o)) os)))

insert_by_key-Perm :
    (key : Choice → ℕ) (o : Choice) (xs : List Choice) → Perm (o ∷ xs) (insert_by_key key o xs)
unfolding insert_by_key
insert_by_key-Perm key o [] = Perm.rfl
insert_by_key-Perm key o (x ∷ xs) = go (leb (key x) (key o)) refl (insert_by_key-Perm key o xs)
  where
    go :
        (b : Bool)
        → leb (key x) (key o) ≡ b
        → Perm (o ∷ xs) (insert_by_key key o xs)
        → Perm (o ∷ (x ∷ xs)) (if b then o ∷ (x ∷ xs) else x ∷ insert_by_key key o xs)
    go true e h = Perm.rfl
    go false e h = Perm.trans (Perm.swap x o xs) (Perm.cons x h)

sort_by_key-Perm : (key : Choice → ℕ) (os : List Choice) → Perm os (sort_by_key key os)
unfolding sort_by_key
sort_by_key-Perm key [] = Perm.rfl
sort_by_key-Perm key (o ∷ os) =
    Perm.trans (Perm.cons o (sort_by_key-Perm key os))
      (insert_by_key-Perm key o (sort_by_key key os))

-- A hint, whatever it is, only changes the order of the options that are tried.
pub prioritize-Perm : (os : List Choice) (hint : Option Text) → Perm os (prioritize os hint)
unfolding prioritize
prioritize-Perm os none = Perm.rfl
prioritize-Perm os (some []) = Perm.rfl
prioritize-Perm os (some (c ∷ s)) = keep-Perm (λ o. o.0 == (c ∷ s)) os

-- Two groups, each in an order of its own.
groups-Perm :
    (test : Choice → Bool) (os : List Choice) {ys zs : List Choice}
    → Perm (keep test os) ys
    → Perm (keep (λ o. not (test o)) os) zs
    → Perm os (ys ++ zs)
groups-Perm test os h k = Perm.trans (keep-Perm test os) (Perm.append h k)

-- The order in which step 4 of fetch_attendance tries the sessions is a rearrangement of the dropdown,
-- whatever the semester and the hint are: no session is left out, and none is tried twice.
pub get_prioritized_sessions-Perm :
    (semester : Text) (os : List Choice) (hint : Option Text)
    → Perm os (prioritize (get_prioritized_sessions semester os) hint)
unfolding get_prioritized_sessions
get_prioritized_sessions-Perm semester os hint =
    Perm.trans
      (groups-Perm (is_preferred semester) os (sort_by_key-Perm session_year _) (
        groups-Perm names_semester _ (sort_by_key-Perm session_year _)
          (sort_by_key-Perm session_year _)))
      (prioritize-Perm (get_prioritized_sessions semester os) hint)

-- The order of step 3 is a rearrangement of the options with a year.
pub get_sorted_academic_years-Perm :
    (start_year : ℕ) (os : List Choice) (hint : Option Text)
    → Perm (keep has_year os) (prioritize (get_sorted_academic_years start_year os) hint)
unfolding get_sorted_academic_years
get_sorted_academic_years-Perm start_year os hint =
    Perm.trans
      (groups-Perm (λ o. year_of o == start_year) (keep has_year os) Perm.rfl
        (sort_by_key-Perm year_of _))
      (prioritize-Perm (get_sorted_academic_years start_year os) hint)
