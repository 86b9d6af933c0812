-- ===== src/Dispatcher/Ends.antt =====
-- The transitions of app/services/event_dispatcher_service.py that end the claim of an event, and
-- what a sequence of them leaves in the table.
use updatednitr.Prelude.{
  keep, All-keep, ℕ, suc, ◌+◌, ◌≤◌, ◌≡◌, refl, sym, ◌∙◌, ◌⊎◌, inl, inr, Bool, true, false, Option,
  none, List, [], ◌∷◌, ◌++◌, arith, if◌then◌else◌, ◌==◌, nat_eq, All, beq_refl,
}
use updatednitr.Dispatcher.Table.{Event, update_row, sent_row, failed_row, released_row, Note}

-- A transition of a row that ends a claim: it sends or counts one attempt.
pub record IsEnd (f : Event → Event) : Type 0 where
  pub same_id : (e : Event) → (f e).id ≡ e.id
  pub frees : (e : Event) → (f e).claimed_at ≡ none
  pub progress : (e : Event) → ((f e).sent ≡ true) ⊎ ((f e).attempt_count ≡ e.attempt_count + 1)

pub sent_row-IsEnd : (now : ℕ) → IsEnd (sent_row now)
sent_row-IsEnd now = record { same_id = λ e. refl; frees = λ e. refl; progress = λ e. inl refl }

pub failed_row-IsEnd : (now : ℕ) (note : Note) → IsEnd (failed_row now note)
failed_row-IsEnd now note = record {
  same_id = λ e. refl;
  frees = λ e. refl;
  progress = λ e. inl refl;
}

pub released_row-IsEnd : (err : Option Note) → IsEnd (released_row err)
released_row-IsEnd err = record { same_id = λ e. refl; frees = λ e. refl; progress = λ e. inr refl }

-- `t'` is `t` with the claims of the events ended, one after the other.
pub data Ends : List Event → List Event → List Event → Type 0 where
  none_left : (t : List Event) → Ends [] t t
  ended :
      (ev : Event) {evs : List Event} (t : List Event) {t' : List Event} (f : Event → Event)
      → IsEnd f
      → Ends evs (update_row ev.id f t) t'
      → Ends (ev ∷ evs) t t'

pub Ends-append :
    {evs fs t t' t'' : List Event} → Ends evs t t' → Ends fs t' t'' → Ends (evs ++ fs) t t''
Ends-append (none_left t) b = b
Ends-append (ended ev t f i a) b = ended ev t f i (Ends-append a b)

pub Ends-one :
    (ev : Event) (t : List Event) (f : Event → Event)
    → IsEnd f
    → Ends (ev ∷ []) t (update_row ev.id f t)
Ends-one ev t f i = ended ev t f i (none_left (update_row ev.id f t))

-- How often an id is listed.
unfoldable pub times : ℕ → List Event → ℕ
times id [] = 0
times id (e ∷ es) = let rest = times id es in if e.id == id then suc rest else rest

-- What holds of the row of a claimed event until its claim is ended, and after that.
abbrev pub IsHeld : Event → Event → Type 0
IsHeld c e = e.id ≡ c.id → e.attempt_count ≡ c.attempt_count

pub record IsSettled (c e : Event) : Type 0 where
  pub freed : e.claimed_at ≡ none
  pub progressed : (e.sent ≡ true) ⊎ (e.attempt_count ≡ c.attempt_count + 1)

abbrev pub SettlesIn : Event → List Event → Type 0
SettlesIn c t = All (λ (e : Event). e.id ≡ c.id → IsSettled c e) t

-- A transition of another event leaves the rows of this one.
update_row-other {κ} :
    (P : Event → Type κ) (c : Event) (id : ℕ) (f : Event → Event) (t : List Event)
    → IsEnd f
    → (id == c.id) ≡ false
    → All (λ (e : Event). e.id ≡ c.id → P e) t
    → All (λ (e : Event). e.id ≡ c.id → P e) (update_row id f t)
unfolding update_row
update_row-other P c id f [] i n h = tt
update_row-other P c id f (e ∷ es) i n h =
    (go (e.id == id) refl, update_row-other P c id f es i n h.1)
  where
    go : (b : Bool) → (e.id == id) ≡ b → (if b then f e else e).id ≡ c.id → P (if b then f e else e)
    go true p q =
        absurd
          (ground (arith, i.same_id e, nat_eq.same_iff e.id id, nat_eq.same_iff id c.id, p, q, n))
    go false p q = h.0 q

update_row-settles :
    (c : Event) (f : Event → Event) (t : List Event)
    → IsEnd f
    → All (IsHeld c) t
    → SettlesIn c (update_row c.id f t)
unfolding update_row
update_row-settles c f [] i h = tt
update_row-settles c f (e ∷ es) i h = (go (e.id == c.id) refl, update_row-settles c f es i h.1)
  where
    now : e.attempt_count ≡ c.attempt_count → IsSettled c (f e)
    now s = record {
      freed = i.frees e;
      progressed = elim (i.progress e) [ inl h ↦ inl h | inr h ↦ inr (omega (arith, h, s)) ];
    }

    go :
        (b : Bool)
        → (e.id == c.id) ≡ b
        → (if b then f e else e).id ≡ c.id
        → IsSettled c (if b then f e else e)
    go true p q = now (h.0 (sym (i.same_id e) ∙ q))
    go false p q = ground (arith, p, q)

Ends-keeps :
    (c : Event) {evs t t' : List Event}
    → Ends evs t t'
    → times c.id evs ≡ 0
    → SettlesIn c t
    → SettlesIn c t'
unfolding times
Ends-keeps c (none_left t) z s = s
Ends-keeps c (ended ev {evs} t f i a) z s =
    Ends-keeps c a (ground (arith, z))
      (update_row-other (IsSettled c) c ev.id f t i (ground (arith, z)) s)

pub data Listed (c : Event) : List Event → Type 0 where
  head : {evs : List Event} → Listed c (c ∷ evs)
  tail : {d : Event} {evs : List Event} → Listed c evs → Listed c (d ∷ evs)

times-Listed : (c : Event) {evs : List Event} → Listed c evs → 1 ≤ times c.id evs
unfolding times
times-Listed c head = ground (arith, beq_refl c.id)
times-Listed c (tail m) = ground (arith, times-Listed c m)

-- Every event whose claim is ended once is settled.
pub Ends-settles :
    (c : Event) {evs t t' : List Event}
    → Ends evs t t'
    → Listed c evs
    → times c.id evs ≡ 1
    → All (IsHeld c) t
    → SettlesIn c t'
unfolding times
Ends-settles c (none_left t) m z h = elim m [ ]
Ends-settles c (ended ev t f i a) head z h =
    Ends-keeps c a (ground (arith, z, beq_refl c.id)) (update_row-settles c f t i h)
Ends-settles c (ended ev t f i a) (tail m) z h =
    Ends-settles c a m (ground (arith, z, times-Listed c m)) (
      update_row-other (λ e. e.attempt_count ≡ c.attempt_count) c ev.id f t i
        (ground (arith, z, times-Listed c m)) h)

-- The rows with the id of an event.
abbrev pub rows_of : Event → List Event → List Event
rows_of c t = keep (λ (e : Event). e.id == c.id) t

pub SettlesIn-rows : (c : Event) (t : List Event) → SettlesIn c t → All (IsSettled c) (rows_of c t)
SettlesIn-rows c t h = All-keep (IsSettled c) (λ (e : Event). e.id == c.id) t (mono t h)
  where
    mono :
        (t : List Event)
        → SettlesIn c t
        → All (λ (e : Event). (e.id == c.id) ≡ true → IsSettled c e) t
    mono [] h = tt
    mono (e ∷ es) h = ((λ b. h.0 (ground (arith, b))), mono es h.1)
