-- ===== src/Client/Payload.antt =====
-- submit_postback of app/nitris/aspnet.py: what the form of a postback holds.
use updatednitr.Prelude.{
  ◌≡◌, refl, ap, not, Option, none, some, [], ◌∷◌, keep, arith, if◌then◌else◌, ◌==◌, text_eq, Text,
  Dict, lookup, insert, lookup-insert, Distinct,
}
use updatednitr.Client.Postback.{payload, merge, is_given, event_target, event_argument}

-- What one dictionary gives, else another.
abbrev or_else : Option Text → Option Text → Option Text
or_else none other = other
or_else (some v) other = some v

lookup-merge :
    (k : Text) (state updates : Dict Text Text)
    → Distinct updates
    → lookup k (merge state updates) ≡ or_else (lookup k updates) (lookup k state)
unfolding merge lookup
lookup-merge k state [] h = refl
lookup-merge k state ((j, v) ∷ updates) h = ground (
  arith,
  text_eq.same_iff j k,
  h.0,
  lookup-merge k (insert j v state) updates h.1,
  lookup-insert j k v state,
)

-- The cleaning only takes out names that are given anew.
lookup-cleaned :
    (k : Text) (updates state : Dict Text Text)
    → lookup k updates ≡ none
    → lookup k (keep (λ (kv : Text × Text). not (is_given updates kv.0)) state) ≡ lookup k state
unfolding lookup
lookup-cleaned k updates [] h = refl
lookup-cleaned k updates ((j, v) ∷ state) h =
    ground (arith, text_eq.same_iff j k, lookup-cleaned k updates state h)

-- What a field of the form holds, by name.
abbrev pub field :
    (state : Dict Text Text) → (target : Text) → (updates : Dict Text Text) → Text → Option Text
field state target updates k = or_else (lookup k updates) (
    if event_argument == k
    then some []
    else if event_target == k
    then some target
    else lookup k state)

-- A field of a postback that is given anew has the value given; if it is not, the event's target is the
-- one that was passed, the event's argument is empty, and every other field is as the page has it. The
-- updates name no field twice.
pub lookup-payload :
    (state updates : Dict Text Text) (target k : Text)
    → Distinct updates
    → lookup k (payload state target updates) ≡ field state target updates k
unfolding payload
lookup-payload state updates target k h =
    rw
      (
        lookup-merge k (insert event_argument [] (insert event_target target cleaned)) updates h,
        lookup-insert event_argument k [] (insert event_target target cleaned),
        lookup-insert event_target k target cleaned,
      )
      (go (lookup k updates) refl)
  where
    cleaned : Dict Text Text
    cleaned = keep (λ (kv : Text × Text). not (is_given updates kv.0)) state

    after_event : Option Text → Option Text
    after_event other =
        if event_argument == k then some [] else if event_target == k then some target else other

    go :
        (r : Option Text)
        → lookup k updates ≡ r
        → or_else r (after_event (lookup k cleaned)) ≡ or_else r (after_event (lookup k state))
    go none e = ap after_event (lookup-cleaned k updates state e)
    go (some v) e = refl
