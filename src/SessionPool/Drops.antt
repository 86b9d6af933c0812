-- ===== src/SessionPool/Drops.antt =====
-- drop_session of app/nitris/session_pool.py leaves the entries and places that are not the user's.
use updatednitr.Prelude.{
  ℕ, ◌≡◌, ◌≢◌, refl, inl, inr, some, arith, lookup, nat_eq, lookup-insert, lookup-erase,
  Option-cases,
}
use updatednitr.SessionPool.{Pool, update_entry, close, drop_session}

-- The entry of the number is as it was, and no user's place leads to it if none of theirs did.
pub lookup-drop_session :
    (user_id id : ℕ) (p : Pool)
    → lookup user_id p.pool ≢ some id
    → lookup id (drop_session user_id p).0.entries ≡ lookup id p.entries
unfolding drop_session update_entry
lookup-drop_session user_id id p h = elim (Option-cases (lookup user_id p.pool)) [
  | inl e ↦ rw (e, drop_session) refl
  | inr (i, e) ↦ elim (Option-cases (lookup i p.entries)) [
    | inl f ↦ rw (e, f, drop_session, update_entry) refl
    | inr (x, f) ↦ ground (arith, e, f, h, lookup-insert i id (close x) p.entries)
  ]
]

pub place-drop_session :
    (user_id id other : ℕ) (p : Pool)
    → lookup other p.pool ≢ some id
    → lookup other (drop_session user_id p).0.pool ≢ some id
unfolding drop_session update_entry
place-drop_session user_id id other p h = ground (arith, h, lookup-erase user_id other p.pool)

pub next-drop_session :
    (user_id : ℕ) (p : Pool) → (drop_session user_id p).0.next_entry ≡ p.next_entry
unfolding drop_session update_entry
next-drop_session user_id p = ground arith
