-- ===== src/Dispatcher/Claims.antt =====
-- The claim and the reaper of app/services/event_dispatcher_service.py: which rows a claim takes,
-- and which rows neither touches.
use updatednitr.Prelude.{
  ℕ, zero, suc, ◌+◌, ◌-◌, ◌≤◌, ◌<◌, ◌≡◌, refl, inl, inr, String, Bool, true, false, ◌&&◌, ◌||◌,
  List, [], ◌∷◌, arith, ltb, nat_eq, map, keep, All, Bool-cases,
}
use updatednitr.Dispatcher.Table.{
  Event, is_eligible, claim_row, claim_events, is_stale, reap_stale_claims,
}

abbrev pub first : ℕ → List Event → List Event
first n [] = []
first zero (e ∷ es) = []
first (suc n) (e ∷ es) = e ∷ first n es

first_zero : (es : List Event) → first 0 es ≡ []
first_zero [] = refl
first_zero (e ∷ es) = refl

-- A claim takes exactly the first `batch` eligible rows, in the order of their ids, each with the
-- time and the worker of the claim and with its attempt count as it was.
pub claim_events-first :
    (now stale : ℕ) (worker : String) (batch : ℕ) (t : List Event)
    → (claim_events now stale worker batch t).1
      ≡ map (claim_row now worker) (first batch (keep (is_eligible now stale) t))
unfolding claim_events
claim_events-first now stale worker batch [] = refl
claim_events-first now stale worker zero (e ∷ es) = ground (
  arith,
  claim_events-first now stale worker zero es,
  first_zero (keep (is_eligible now stale) es),
)
claim_events-first now stale worker (suc n) (e ∷ es) = ground (
  arith,
  claim_events-first now stale worker n es,
  claim_events-first now stale worker (suc n) es,
)

-- The ids ascend, as ORDER BY id presents the rows.
abbrev pub IsAbove : ℕ → List Event → Type 0
IsAbove n = All (λ (e : Event). n < e.id)

abbrev pub IsAscending : List Event → Type 0
IsAscending [] = Unit
IsAscending (e ∷ es) = IsAbove e.id es × IsAscending es

abbrev pub IsApart : Event → List Event → Type 0
IsApart e = All (λ (d : Event). ¬ (d.id ≡ e.id))

above-IsApart : (e : Event) (es : List Event) → IsAbove e.id es → IsApart e es
above-IsApart e [] h = tt
above-IsApart e (d ∷ es) h = ((λ q. omega (arith, q, h.0)), above-IsApart e es h.1)

pub claim_events-IsAbove :
    (n now stale : ℕ) (worker : String) (batch : ℕ) (t : List Event)
    → IsAbove n t
    → IsAbove n (claim_events now stale worker batch t).0
      × IsAbove n (claim_events now stale worker batch t).1
unfolding claim_events
claim_events-IsAbove n now stale worker batch [] h = (tt, tt)
claim_events-IsAbove n now stale worker batch (e ∷ es) h = ground (
  arith,
  claim_events-IsAbove n now stale worker batch es h.1,
  claim_events-IsAbove n now stale worker (batch - 1) es h.1,
)

pub claim_events-IsAscending :
    (now stale : ℕ) (worker : String) (batch : ℕ) (t : List Event)
    → IsAscending t
    → IsAscending (claim_events now stale worker batch t).0
unfolding claim_events
claim_events-IsAscending now stale worker batch [] h = tt
claim_events-IsAscending now stale worker batch (e ∷ es) h = ground (
  arith,
  claim_events-IsAscending now stale worker batch es h.1,
  claim_events-IsAscending now stale worker (batch - 1) es h.1,
  claim_events-IsAbove e.id now stale worker batch es h.0,
  claim_events-IsAbove e.id now stale worker (batch - 1) es h.0,
)

-- No event of the second list has the id of an event of the first.
abbrev pub IsDisjoint : List Event → List Event → Type 0
IsDisjoint got₁ got₂ = All (λ e. IsApart e got₁) got₂

IsDisjoint-above :
    (n : ℕ) (e : Event) (got₁ got₂ : List Event)
    → e.id ≡ n
    → IsAbove n got₂
    → IsDisjoint got₁ got₂
    → IsDisjoint (e ∷ got₁) got₂
IsDisjoint-above n e got₁ [] q h d = tt
IsDisjoint-above n e got₁ (g ∷ got₂) q h d =
    (((λ p. omega (arith, q, p, h.0)), d.0), IsDisjoint-above n e got₁ got₂ q h.1 d.1)

-- What a claim takes is apart from `got`, when its first row is, if taken, and the rest is.
claim_events-IsDisjoint :
    (now stale : ℕ) (worker : String) (batch : ℕ) (got : List Event) (d : Event) (t : List Event)
    → (is_eligible now stale d ≡ true → IsApart d got)
    → ((b : ℕ) → IsDisjoint got (claim_events now stale worker b t).1)
    → IsDisjoint got (claim_events now stale worker batch (d ∷ t)).1
unfolding claim_events
claim_events-IsDisjoint now stale worker batch got d t apart rest =
    elim (Bool-cases (is_eligible now stale d)) [
      | inl h ↦ ground (arith, h, apart h, rest batch, rest (batch - 1))
      | inr h ↦ ground (arith, h, rest batch)
    ]

claimed_ineligible :
    (now now' stale : ℕ) (worker : String) (e : Event)
    → now' ≤ now + stale
    → is_eligible now' stale (claim_row now worker e) ≡ false
unfolding is_eligible
claimed_ineligible now now' stale worker e h = ground arith

pub claim_events-taken :
    (now stale : ℕ) (worker : String) (batch : ℕ) (e : Event) (es : List Event)
    → (is_eligible now stale e && ltb 0 batch) ≡ true
    → claim_events now stale worker batch (e ∷ es) ≡ (
      claim_row now worker e ∷ (claim_events now stale worker (batch - 1) es).0,
      claim_row now worker e ∷ (claim_events now stale worker (batch - 1) es).1,
    )
unfolding claim_events
claim_events-taken now stale worker batch e es takes = rw takes refl

pub claim_events-passed :
    (now stale : ℕ) (worker : String) (batch : ℕ) (e : Event) (es : List Event)
    → (is_eligible now stale e && ltb 0 batch) ≡ false
    → claim_events now stale worker batch (e ∷ es)
      ≡ (e ∷ (claim_events now stale worker batch es).0, (claim_events now stale worker batch es).1)
unfolding claim_events
claim_events-passed now stale worker batch e es leaves = rw leaves refl

abbrev IsExclusive :
    (now now' stale : ℕ) → String → String → (batch batch' : ℕ) → List Event → Type 0
IsExclusive now now' stale worker worker' batch batch' t =
    IsDisjoint (claim_events now stale worker batch t).1
      (claim_events now' stale worker' batch' (claim_events now stale worker batch t).0).1

IsExclusive-took :
    (now now' stale : ℕ) (worker worker' : String) (batch batch' : ℕ) (e : Event) (es : List Event)
    → IsAbove e.id es
    → now' ≤ now + stale
    → ((b b' : ℕ) → IsExclusive now now' stale worker worker' b b' es)
    → (is_eligible now stale e && ltb 0 batch) ≡ true
    → IsExclusive now now' stale worker worker' batch batch' (e ∷ es)
IsExclusive-took now now' stale worker worker' batch batch' e es a h rest takes =
    let r : List Event × List Event = claim_events now stale worker (batch - 1) es in
    let above₁ = (claim_events-IsAbove e.id now stale worker (batch - 1) es a).0 in
    let q : claim_events now stale worker batch (e ∷ es)
        ≡ (claim_row now worker e ∷ r.0, claim_row now worker e ∷ r.1) =
      claim_events-taken now stale worker batch e es takes in
    rw q (
      claim_events-IsDisjoint now' stale worker' batch' (claim_row now worker e ∷ r.1)
        (claim_row now worker e) r.0
        (λ p. ground (arith, p, claimed_ineligible now now' stale worker e h))
        (λ b.
          IsDisjoint-above e.id (claim_row now worker e) r.1
            (claim_events now' stale worker' b r.0).1 refl
            (claim_events-IsAbove e.id now' stale worker' b r.0 above₁).1 (rest (batch - 1) b)))

IsExclusive-left :
    (now now' stale : ℕ) (worker worker' : String) (batch batch' : ℕ) (e : Event) (es : List Event)
    → IsAbove e.id es
    → ((b b' : ℕ) → IsExclusive now now' stale worker worker' b b' es)
    → (is_eligible now stale e && ltb 0 batch) ≡ false
    → IsExclusive now now' stale worker worker' batch batch' (e ∷ es)
IsExclusive-left now now' stale worker worker' batch batch' e es a rest leaves =
    rw (claim_events-passed now stale worker batch e es leaves) (
      claim_events-IsDisjoint now' stale worker' batch' (claim_events now stale worker batch es).1 e
        (claim_events now stale worker batch es).0
        (λ _.
          above-IsApart e (claim_events now stale worker batch es).1
            (claim_events-IsAbove e.id now stale worker batch es a).1)
        (rest batch))

-- Two claims, of any workers and sizes, the second before the first is stale: no event is claimed by
-- both.
pub claims_exclusive :
    (now now' stale : ℕ) (worker worker' : String) (batch batch' : ℕ) (t : List Event)
    → IsAscending t
    → now' ≤ now + stale
    → IsDisjoint
        (claim_events now stale worker batch t).1
        (claim_events now' stale worker' batch' (claim_events now stale worker batch t).0).1
unfolding claim_events
claims_exclusive now now' stale worker worker' batch batch' [] a h = tt
claims_exclusive now now' stale worker worker' batch batch' (e ∷ es) a h =
    let rest : (b b' : ℕ) → IsExclusive now now' stale worker worker' b b' es =
      λ b b'. claims_exclusive now now' stale worker worker' b b' es a.1 h in
    elim (Bool-cases (is_eligible now stale e && ltb 0 batch)) [
      | inl takes ↦
          IsExclusive-took now now' stale worker worker' batch batch' e es a.0 h rest takes
      | inr leaves ↦
          IsExclusive-left now now' stale worker worker' batch batch' e es a.0 rest leaves
    ]

abbrev pub is_terminal : Event → Bool
is_terminal e = e.sent || e.permanent_failure

-- An event that is sent or has failed for good is the same after any claim and any run of the
-- reaper: both leave the list of these events as it is.
pub terminal_untouched :
    (now stale : ℕ) (worker : String) (batch : ℕ) (t : List Event)
    → (keep is_terminal (claim_events now stale worker batch t).0 ≡ keep is_terminal t)
      × (keep is_terminal (reap_stale_claims now stale t).0 ≡ keep is_terminal t)
unfolding claim_events reap_stale_claims is_eligible is_stale
terminal_untouched now stale worker batch [] = (refl, refl)
terminal_untouched now stale worker batch (e ∷ es) = ground (
  arith,
  terminal_untouched now stale worker batch es,
  terminal_untouched now stale worker (batch - 1) es,
)
