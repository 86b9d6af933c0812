-- ===== src/SessionPool/Locked.antt =====
-- A job that comes does not disturb one that runs: what with_pooled_session of
-- app/nitris/session_pool.py does to an entry whose lock is held, before it takes its own.
use updatednitr.Prelude.{
  ℕ, ◌≡◌, refl, sym, ◌∙◌, ◌⊎◌, inl, inr, ◌<◌, true, false, not, ◌&&◌, Option, none, some, arith,
  leb, lookup, erase, nat_eq, lookup-insert, All, Option-cases, Bool-cases,
}
use mathlib.Core.Path.{subst}
use updatednitr.SessionPool.{
  Entry, Pool, update_entry, drop_session, evict_if_over_cap, reap, new_entry, get_or_add, enter,
}
use updatednitr.SessionPool.Drops.{lookup-drop_session, next-drop_session}
use updatednitr.SessionPool.Places.{IsPlace, drop_session-places}
use updatednitr.SessionPool.Evictions.{lookup-evict_if_over_cap}

pool-drop_session :
    (user_id i : ℕ) (p : Pool)
    → lookup user_id p.pool ≡ some i
    → (drop_session user_id p).0.pool ≡ erase user_id p.pool
unfolding drop_session update_entry
pool-drop_session user_id i p e = ground (arith, e)

-- What reap does: nothing, or a drop of an entry that is not locked.
reap-cases :
    (now user_id : ℕ) (p : Pool)
    → (reap now user_id p ≡ p)
      ⊎ ((i : ℕ) × (e : Entry) × (lookup user_id p.pool ≡ some i)
          × (lookup i p.entries ≡ some e)
          × (e.locked ≡ false)
          × (reap now user_id p ≡ (drop_session user_id p).0))
unfolding reap
reap-cases now user_id p = elim (Option-cases (lookup user_id p.pool)) [
  | inl f ↦ inl (rw (f, reap) refl)
  | inr (i, f) ↦ elim (Option-cases (lookup i p.entries)) [
    | inl g ↦ inl (rw (f, g, reap) refl)
    | inr (e, g) ↦ elim (Bool-cases (leb e.expires now && not e.locked)) [
      | inl b ↦ inr (i, e, f, g, ground (arith, b), rw (f, g, b, reap) refl)
      | inr b ↦ inl (rw (f, g, b, reap) refl)
    ]
  ]
]

-- What a held entry needs: it is stored, and the places are in order.
record IsSpared (id : ℕ) (held : Entry) (p : Pool) : Type 0 where
  stored : lookup id p.entries ≡ some held
  old : id < p.next_entry
  places : All (IsPlace p) p.pool

reap-IsSpared :
    (now user_id id : ℕ) (held : Entry) (p : Pool)
    → held.locked ≡ true
    → IsSpared id held p
    → IsSpared id held (reap now user_id p)
reap-IsSpared now user_id id held p l h = elim (reap-cases now user_id p) [
  | inl e ↦ rw e h
  | inr (i, x, f, g, free, e) ↦ rw e (record {
    stored =
        lookup-drop_session user_id id p (λ q. ground (arith, q, f, g, free, l, h.stored))
        ∙ h.stored;
    old = omega (arith, h.old, next-drop_session user_id p);
    places =
        subst (All (IsPlace (drop_session user_id p).0)) (sym (pool-drop_session user_id i p f))
          (drop_session-places user_id p p.pool h.places);
  })
]

get_or_add-stored :
    (now ttl user_id id : ℕ) (held : Entry) (p : Pool)
    → lookup id p.entries ≡ some held
    → id < p.next_entry
    → lookup id (get_or_add now ttl user_id p).0.entries ≡ some held
unfolding get_or_add
get_or_add-stored now ttl user_id id held p h old =
    ground (arith, h, old, lookup-insert p.next_entry id (new_entry now ttl user_id) p.entries)

-- A job that comes leaves every entry whose lock is held as it is, with its session: whoever the job is
-- for, whatever has expired, and however full the pool is. The places of the pool are in order.
pub enter_spares_locked :
    (now ttl max_pooled user_id id : ℕ) (held : Entry) (p : Pool)
    → All (IsPlace p) p.pool
    → id < p.next_entry
    → lookup id p.entries ≡ some held
    → held.locked ≡ true
    → lookup id (enter now ttl max_pooled user_id p).0.entries ≡ some held
unfolding enter
enter_spares_locked now ttl max_pooled user_id id held p places old stored l =
    go (lookup user_id p'.pool) h'
  where
    p' : Pool
    p' = reap now user_id p

    h' : IsSpared id held p'
    h' =
        reap-IsSpared now user_id id held p l
          (record { stored = stored; old = old; places = places })

    go :
        (o : Option ℕ)
        → IsSpared id held p'
        → lookup id
            (get_or_add now ttl user_id
              (elim o [ some i ↦ p' | none ↦ evict_if_over_cap max_pooled p' ])).0.entries
          ≡ some held
    go (some i) h = get_or_add-stored now ttl user_id id held p' h.stored h.old
    go none h =
        let (a, b) = lookup-evict_if_over_cap max_pooled id held p' h.stored l h.places in
        get_or_add-stored now ttl user_id id held (evict_if_over_cap max_pooled p') a
          (omega (arith, b, h.old))
