-- ===== src/SessionPool/Stale.antt =====
-- How a job that waited for a dropped entry of app/nitris/session_pool.py hits another one.
use updatednitr.Prelude.{
  ℕ, ◌≡◌, ◌≢◌, refl, ap, ◌∙◌, inl, inr, true, false, none, some, arith, lookup, nat_eq,
  lookup-insert, lookup-insert_self, lookup-erase_self, Option-cases,
}
use updatednitr.SessionPool.{
  Entry, Pool, update_entry, close, drop_session, leave, unlock, auth_fault,
}

drop_session-closes :
    (user_id fresh : ℕ) (e : Entry) (p : Pool)
    → lookup user_id p.pool ≡ some fresh
    → lookup fresh p.entries ≡ some e
    → (lookup fresh (drop_session user_id p).0.entries ≡ some (close e))
      × (lookup user_id (drop_session user_id p).0.pool ≡ none)
unfolding drop_session update_entry
drop_session-closes user_id fresh e p place stored =
    rw (place, stored, drop_session, update_entry)
      (lookup-insert_self fresh (close e) p.entries, lookup-erase_self user_id p.pool)

update_entry-other :
    (stale fresh : ℕ) (f : Entry → Entry) (p : Pool)
    → stale ≢ fresh
    → (lookup fresh (update_entry stale f p).entries ≡ lookup fresh p.entries)
      × ((update_entry stale f p).pool ≡ p.pool)
unfolding update_entry
update_entry-other stale fresh f p differ = elim (Option-cases (lookup stale p.entries)) [
  | inl e ↦ rw (e, update_entry) (refl, refl)
  | inr (x, e) ↦
      rw (e, update_entry) (ground (arith, differ, lookup-insert stale fresh (f x) p.entries), refl)
]

-- The drop after an auth fault takes the entry that stands in the pool, not the one that the job used.
-- When a job ends with an auth fault on an entry that is in the pool no more, the entry that is there
-- for the same user is logged out and removed, although another job holds its lock.
pub stale_job_logs_out :
    (now ttl user_id stale fresh : ℕ) (e : Entry) (p : Pool)
    → stale ≢ fresh
    → lookup user_id p.pool ≡ some fresh
    → lookup fresh p.entries ≡ some e
    → e.locked ≡ true
    → let p' = leave now ttl user_id stale auth_fault p in
      (lookup fresh p'.entries ≡ some (close e)) × (lookup user_id p'.pool ≡ none)
unfolding leave unlock
stale_job_logs_out now ttl user_id stale fresh e p differ place stored locked =
    let q : Pool = (drop_session user_id p).0 in
    let (closed, gone) = drop_session-closes user_id fresh e p place stored in
    let (same, pool) = update_entry-other stale fresh (λ x. record x { locked = false }) q differ in
    (same ∙ closed, ap (lookup user_id) pool ∙ gone)
