-- ===== src/SessionPool/Places.antt =====
-- Each place of the pool of app/nitris/session_pool.py leads to an entry of its user, and a drop keeps
-- that of the others.
use updatednitr.Prelude.{
  ℕ, ◌≡◌, ◌≢◌, refl, ◌∙◌, inl, inr, Bool, true, false, some, [], ◌∷◌, arith, if◌then◌else◌, ◌==◌,
  Dict, lookup, erase, nat_eq, lookup-insert, lookup-erase, All, Option-cases, Bool-cases,
}
use updatednitr.SessionPool.{Entry, Pool, update_entry, close, drop_session}

-- Every place of the pool leads to an entry of its user.
pub record IsPlace (p : Pool) (u : ℕ × ℕ) : Type 0 where
  pub there : lookup u.0 p.pool ≡ some u.1
  pub entry : Entry
  pub stored : lookup u.1 p.entries ≡ some entry
  pub owned : entry.user_id ≡ u.0

place-kept :
    (user_id u i : ℕ) (p : Pool)
    → u ≢ user_id
    → lookup u p.pool ≡ some i
    → lookup u (drop_session user_id p).0.pool ≡ some i
unfolding drop_session update_entry
place-kept user_id u i p other e = ground (arith, e, other, lookup-erase user_id u p.pool)

-- An entry keeps its user, whoever is dropped.
stored-drop_session :
    (user_id i : ℕ) (e : Entry) (p : Pool)
    → lookup i p.entries ≡ some e
    → (x : Entry) × (lookup i (drop_session user_id p).0.entries ≡ some x) × (x.user_id ≡ e.user_id)
unfolding drop_session update_entry
stored-drop_session user_id i e p h = elim (Option-cases (lookup user_id p.pool)) [
  | inl none_there ↦ (e, rw (none_there, drop_session) h, refl)
  | inr (j, there) ↦ elim (Option-cases (lookup j p.entries)) [
    | inl f ↦ (e, rw (there, f, drop_session, update_entry) h, refl)
    | inr (y, f) ↦ elim (Bool-cases (j == i)) [
      | inl same ↦ (
        close y,
        rw (there, f, lookup-insert j i (close y) p.entries, same, drop_session, update_entry) refl,
        ground (arith, h, f, same),
      )
      | inr differs ↦ (
        e,
        rw (there, f, lookup-insert j i (close y) p.entries, differs, drop_session, update_entry) h,
        refl,
      )
    ]
  ]
]

-- Dropping one user leaves the places of the others.
drop_session-IsPlace :
    (user_id u i : ℕ) (p : Pool)
    → u ≢ user_id
    → IsPlace p (u, i)
    → IsPlace (drop_session user_id p).0 (u, i)
drop_session-IsPlace user_id u i p other place =
    let (x, s, o) = stored-drop_session user_id i place.entry p place.stored in
    record { there = kept; entry = x; stored = s; owned = o ∙ place.owned }
  where
    kept : lookup u (drop_session user_id p).0.pool ≡ some i
    kept = place-kept user_id u i p other place.there

pub drop_session-places :
    (user_id : ℕ) (p : Pool) (ids : Dict ℕ ℕ)
    → All (IsPlace p) ids
    → All (IsPlace (drop_session user_id p).0) (erase user_id ids)
unfolding erase
drop_session-places user_id p [] h = tt
drop_session-places user_id p ((u, i) ∷ ids) h =
    go (u == user_id) refl (drop_session-places user_id p ids h.1)
  where
    go :
        (b : Bool)
        → (u == user_id) ≡ b
        → All (IsPlace (drop_session user_id p).0) (erase user_id ids)
        → All
            (IsPlace (drop_session user_id p).0)
            (if b then erase user_id ids else (u, i) ∷ erase user_id ids)
    go true e r = r
    go false e r = (drop_session-IsPlace user_id u i p (ground (arith, e)) h.0, r)
