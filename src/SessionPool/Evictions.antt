-- ===== src/SessionPool/Evictions.antt =====
-- _evict_if_over_cap of app/nitris/session_pool.py passes over an entry whose lock is held.
use updatednitr.Prelude.{
  ℕ, ◌≡◌, ◌≢◌, refl, ◌∙◌, Bool, true, false, some, List, [], ◌∷◌, arith, leb, ltb, length,
  if◌then◌else◌, Dict, lookup, nat_eq, All,
}
use updatednitr.SessionPool.{
  Entry, Pool, drop_session, insert_by_expires, candidates, evict, evict_if_over_cap,
}
use updatednitr.SessionPool.Drops.{lookup-drop_session, place-drop_session, next-drop_session}
use updatednitr.SessionPool.Places.{IsPlace}

-- None of these leads to the entry of the number.
abbrev IsElsewhere : ℕ → Pool → List Entry → Type 0
IsElsewhere id p = All (λ (e : Entry). lookup e.user_id p.pool ≢ some id)

IsElsewhere-drop :
    (user_id id : ℕ) (p : Pool) (es : List Entry)
    → IsElsewhere id p es
    → IsElsewhere id (drop_session user_id p).0 es
IsElsewhere-drop user_id id p [] h = tt
IsElsewhere-drop user_id id p (e ∷ es) h =
    (place-drop_session user_id id e.user_id p h.0, IsElsewhere-drop user_id id p es h.1)

lookup-evict :
    (max_pooled id : ℕ) (es : List Entry) (p : Pool)
    → IsElsewhere id p es
    → (lookup id (evict max_pooled es p).entries ≡ lookup id p.entries)
      × ((evict max_pooled es p).next_entry ≡ p.next_entry)
unfolding evict
lookup-evict max_pooled id [] p h = (refl, refl)
lookup-evict max_pooled id (e ∷ es) p h =
    let ih =
      lookup-evict max_pooled id es (drop_session e.user_id p).0
        (IsElsewhere-drop e.user_id id p es h.1) in
    let a = lookup-drop_session e.user_id id p h.0 in
    let b = next-drop_session e.user_id p in
    go (ltb (length p.pool) max_pooled) (ih.0 ∙ a, ih.1 ∙ b)
  where
    go :
        (b : Bool)
        → (lookup id (evict max_pooled es (drop_session e.user_id p).0).entries
            ≡ lookup id p.entries)
          × ((evict max_pooled es (drop_session e.user_id p).0).next_entry ≡ p.next_entry)
        → (lookup id (if b then p else evict max_pooled es (drop_session e.user_id p).0).entries
            ≡ lookup id p.entries)
          × ((if b then p else evict max_pooled es (drop_session e.user_id p).0).next_entry
              ≡ p.next_entry)
    go true r = (refl, refl)
    go false r = r

insert_by_expires-All {κ} :
    (P : Entry → Type κ) (e : Entry) (es : List Entry)
    → P e
    → All P es
    → All P (insert_by_expires e es)
unfolding insert_by_expires
insert_by_expires-All P e [] h hs = (h, tt)
insert_by_expires-All P e (d ∷ ds) h hs =
    go (leb e.expires d.expires) (insert_by_expires-All P e ds h hs.1)
  where
    go :
        (b : Bool)
        → All P (insert_by_expires e ds)
        → All P (if b then e ∷ d ∷ ds else d ∷ insert_by_expires e ds)
    go true r = (h, hs)
    go false r = (hs.0, r)

candidates-IsElsewhere :
    (id : ℕ) (held : Entry) (p : Pool) (ids : Dict ℕ ℕ)
    → lookup id p.entries ≡ some held
    → held.locked ≡ true
    → All (IsPlace p) ids
    → IsElsewhere id p (candidates ids p)
unfolding candidates
candidates-IsElsewhere id held p [] h l ps = tt
candidates-IsElsewhere id held p ((u, i) ∷ ids) h l ps =
    let place = ps.0 in
    let rest = candidates-IsElsewhere id held p ids h l ps.1 in
    rw (place.stored, candidates) (go place (place.entry.locked) refl rest)
  where
    go :
        (place : IsPlace p (u, i)) (b : Bool)
        → place.entry.locked ≡ b
        → IsElsewhere id p (candidates ids p)
        → IsElsewhere id p
            (if b then candidates ids p else insert_by_expires place.entry (candidates ids p))
    go place true e r = r
    go place false e r =
        insert_by_expires-All (λ (x : Entry). lookup x.user_id p.pool ≢ some id) place.entry
          (candidates ids p)
          (λ q. ground (arith, q, e, h, l, place.stored, place.owned, place.there)) r

pub lookup-evict_if_over_cap :
    (max_pooled id : ℕ) (held : Entry) (p : Pool)
    → lookup id p.entries ≡ some held
    → held.locked ≡ true
    → All (IsPlace p) p.pool
    → (lookup id (evict_if_over_cap max_pooled p).entries ≡ some held)
      × ((evict_if_over_cap max_pooled p).next_entry ≡ p.next_entry)
unfolding evict_if_over_cap
lookup-evict_if_over_cap max_pooled id held p h l ps =
    let (a, b) =
      lookup-evict max_pooled id (candidates p.pool p) p
        (candidates-IsElsewhere id held p p.pool h l ps) in
    go (ltb (length p.pool) max_pooled) (a ∙ h) b
  where
    after : Pool
    after = evict max_pooled (candidates p.pool p) p

    go :
        (b : Bool)
        → lookup id after.entries ≡ some held
        → after.next_entry ≡ p.next_entry
        → (lookup id (if b then p else after).entries ≡ some held)
          × ((if b then p else after).next_entry ≡ p.next_entry)
    go true a c = (h, refl)
    go false a c = (a, c)
