-- ===== src/Dispatcher/Groups.antt =====
-- The grouping of the claimed events by user in _dispatch_once of
-- app/services/event_dispatcher_service.py: no event is lost.
use updatednitr.Prelude.{
  ℕ, ◌+◌, ◌≡◌, arith, ◌⊎◌, inl, inr, Bool, true, false, List, [], ◌∷◌, ◌++◌, if◌then◌else◌, ◌==◌,
  nat_eq, Dict,
}
use updatednitr.Dispatcher.Table.{Event}
use updatednitr.Dispatcher.Cycle.{add_to_group, group_by_user}
use updatednitr.Dispatcher.Ends.{Listed, head, tail, times}

abbrev pub flatten : Dict ℕ (List Event) → List Event
flatten [] = []
flatten ((u, group) ∷ groups) = group ++ flatten groups

Listed-left : (c : Event) {xs : List Event} (ys : List Event) → Listed c xs → Listed c (xs ++ ys)
Listed-left c ys head = head
Listed-left c ys (tail m) = tail (Listed-left c ys m)

Listed-right : (c : Event) (xs : List Event) {ys : List Event} → Listed c ys → Listed c (xs ++ ys)
Listed-right c [] m = m
Listed-right c (x ∷ xs) m = tail (Listed-right c xs m)

Listed-append :
    (c : Event) (xs : List Event) {ys : List Event}
    → Listed c (xs ++ ys)
    → Listed c xs ⊎ Listed c ys
Listed-append c [] m = inr m
Listed-append c (x ∷ xs) head = inl head
Listed-append c (x ∷ xs) (tail m) = elim (Listed-append c xs m) [
  | inl l ↦ inl (tail l)
  | inr r ↦ inr r
]

add_to_group-new :
    (ev : Event) (groups : Dict ℕ (List Event)) → Listed ev (flatten (add_to_group ev groups))
unfolding add_to_group
add_to_group-new ev [] = head
add_to_group-new ev ((u, group) ∷ groups) = go (u == ev.user_id) (add_to_group-new ev groups)
  where
    go :
        (b : Bool)
        → Listed ev (flatten (add_to_group ev groups))
        → Listed ev (
            flatten
              (if b then (u, group ++ ev ∷ []) ∷ groups else (u, group) ∷ add_to_group ev groups))
    go true _ = Listed-left ev (flatten groups) (Listed-right ev group head)
    go false m = Listed-right ev group m

add_to_group-old :
    (c ev : Event) (groups : Dict ℕ (List Event))
    → Listed c (flatten groups)
    → Listed c (flatten (add_to_group ev groups))
unfolding add_to_group
add_to_group-old c ev [] m = elim m [ ]
add_to_group-old c ev ((u, group) ∷ groups) m =
    go (u == ev.user_id) (Listed-append c group m) (add_to_group-old c ev groups)
  where
    go :
        (b : Bool)
        → Listed c group ⊎ Listed c (flatten groups)
        → (Listed c (flatten groups) → Listed c (flatten (add_to_group ev groups)))
        → Listed c (
            flatten
              (if b then (u, group ++ ev ∷ []) ∷ groups else (u, group) ∷ add_to_group ev groups))
    go true (inl l) _ = Listed-left c (flatten groups) (Listed-left c (ev ∷ []) l)
    go true (inr r) _ = Listed-right c (group ++ ev ∷ []) r
    go false (inl l) _ = Listed-left c (flatten (add_to_group ev groups)) l
    go false (inr r) ih = Listed-right c group (ih r)

group_by_user-old :
    (c : Event) (evs : List Event) (groups : Dict ℕ (List Event))
    → Listed c (flatten groups)
    → Listed c (flatten (group_by_user evs groups))
unfolding group_by_user
group_by_user-old c [] groups m = m
group_by_user-old c (ev ∷ evs) groups m =
    group_by_user-old c evs (add_to_group ev groups) (add_to_group-old c ev groups m)

pub group_by_user-all :
    (c : Event) (evs : List Event) (groups : Dict ℕ (List Event))
    → Listed c evs
    → Listed c (flatten (group_by_user evs groups))
unfolding group_by_user
group_by_user-all c [] groups m = elim m [ ]
group_by_user-all c (ev ∷ evs) groups head =
    group_by_user-old c evs (add_to_group ev groups) (add_to_group-new ev groups)
group_by_user-all c (ev ∷ evs) groups (tail m) = group_by_user-all c evs (add_to_group ev groups) m

times-append : (id : ℕ) (xs ys : List Event) → times id (xs ++ ys) ≡ times id xs + times id ys
unfolding times
times-append id [] ys = omega arith
times-append id (x ∷ xs) ys = ground (arith, times-append id xs ys)

add_to_group-times :
    (id : ℕ) (ev : Event) (groups : Dict ℕ (List Event))
    → times id (flatten (add_to_group ev groups)) ≡ times id (ev ∷ []) + times id (flatten groups)
unfolding add_to_group
add_to_group-times id ev [] = omega (arith, times-append id (ev ∷ []) [])
add_to_group-times id ev ((u, group) ∷ groups) =
    go (u == ev.user_id) (add_to_group-times id ev groups)
  where
    go :
        (b : Bool)
        → times id (flatten (add_to_group ev groups))
          ≡ times id (ev ∷ []) + times id (flatten groups)
        → times id (
            flatten
              (if b then (u, group ++ ev ∷ []) ∷ groups else (u, group) ∷ add_to_group ev groups))
          ≡ times id (ev ∷ []) + times id (group ++ flatten groups)
    go true ih = omega (
      arith,
      times-append id (group ++ ev ∷ []) (flatten groups),
      times-append id group (ev ∷ []),
      times-append id group (flatten groups),
    )
    go false ih = omega (
      arith,
      ih,
      times-append id group (flatten (add_to_group ev groups)),
      times-append id group (flatten groups),
    )

-- No event is made two of.
pub group_by_user-times :
    (id : ℕ) (evs : List Event) (groups : Dict ℕ (List Event))
    → times id (flatten (group_by_user evs groups)) ≡ times id evs + times id (flatten groups)
unfolding group_by_user times
group_by_user-times id [] groups = omega arith
group_by_user-times id (ev ∷ evs) groups =
    ground
      (arith, group_by_user-times id evs (add_to_group ev groups), add_to_group-times id ev groups)
