-- ===== src/SessionPool.antt =====
-- app/nitris/session_pool.py: the authenticated sessions that the jobs of a user share. An entry outlives
-- its place in the pool while a job holds or awaits its lock, so entries stand in a store of their own.
-- The pool never closes the HTTP client itself, so _client_is_usable is true throughout. The children
-- prove.
pub mod Drops
pub mod Places
pub mod Evictions
pub mod Locked
pub mod Stale
use updatednitr.Prelude.{
  ℕ, suc, ◌+◌, Bool, true, false, not, ◌&&◌, Option, none, some, List, [], ◌∷◌, leb, ltb, length,
  if◌then◌else◌, Dict, lookup, insert, erase, nat_eq,
}

-- `logged_out`: client.close() was called, which clears the cookies.
pub record Entry : Type 0 where
  pub user_id : ℕ
  pub expires : ℕ
  pub needs_login : Bool
  pub locked : Bool
  pub logged_out : Bool

pub record Pool : Type 0 where
  pub pool : Dict ℕ ℕ
  pub entries : Dict ℕ Entry
  pub next_entry : ℕ

unfoldable pub update_entry : ℕ → (Entry → Entry) → Pool → Pool
update_entry id f p = elim (lookup id p.entries) [
  | none ↦ p
  | some e ↦ record p { entries = insert id (f e) p.entries }
]

abbrev pub close : Entry → Entry
close e = record e { logged_out = true }

unfoldable pub drop_session : ℕ → Pool → Pool × Bool
unfolding update_entry
drop_session user_id p = elim (lookup user_id p.pool) [
  | none ↦ (p, false)
  | some id ↦ (update_entry id close (record p { pool = erase user_id p.pool }), true)
]

unfoldable pub drop_ids : Dict ℕ ℕ → Pool → Pool
drop_ids [] p = p
drop_ids ((user_id, id) ∷ ids) p = drop_ids ids (drop_session user_id p).0

unfoldable pub drop_all_sessions : Pool → Pool × ℕ
unfolding drop_ids
drop_all_sessions p = (drop_ids p.pool p, length p.pool)

unfoldable pub is_session_warm : (now : ℕ) → ℕ → Pool → Bool
is_session_warm now user_id p = elim (lookup user_id p.pool) [
  | none ↦ false
  | some id ↦ elim (lookup id p.entries) [ none ↦ false | some e ↦ ltb (now + 60) e.expires ]
]

-- sorted(…, key=lambda e: e.expires), which keeps the order of equals.
unfoldable pub insert_by_expires : Entry → List Entry → List Entry
insert_by_expires e [] = e ∷ []
insert_by_expires e (d ∷ ds) =
    let rest = insert_by_expires e ds in if leb e.expires d.expires then e ∷ d ∷ ds else d ∷ rest

-- The entries of the pool that nobody has locked, those that expire first in front.
unfoldable pub candidates : Dict ℕ ℕ → Pool → List Entry
unfolding insert_by_expires
candidates [] p = []
candidates ((user_id, id) ∷ ids) p =
    let rest = candidates ids p in
    elim (lookup id p.entries) [
      | none ↦ rest
      | some e ↦ if e.locked then rest else insert_by_expires e rest
    ]

unfoldable pub evict : (max_pooled : ℕ) → List Entry → Pool → Pool
unfolding drop_session
evict max_pooled [] p = p
evict max_pooled (e ∷ es) p =
    let rest = evict max_pooled es (drop_session e.user_id p).0 in
    if ltb (length p.pool) max_pooled then p else rest

unfoldable pub evict_if_over_cap : (max_pooled : ℕ) → Pool → Pool
unfolding evict candidates
evict_if_over_cap max_pooled p =
    if ltb (length p.pool) max_pooled then p else evict max_pooled (candidates p.pool p) p

-- with_pooled_session, to its lock: an expired entry that nobody holds is dropped.
unfoldable pub reap : (now : ℕ) → ℕ → Pool → Pool
unfolding drop_session
reap now user_id p = elim (lookup user_id p.pool) [
  | none ↦ p
  | some id ↦ elim (lookup id p.entries) [
    | none ↦ p
    | some e ↦ if leb e.expires now && not e.locked then (drop_session user_id p).0 else p
  ]
]

abbrev pub new_entry : (now ttl : ℕ) → ℕ → Entry
new_entry now ttl user_id = record {
  user_id = user_id;
  expires = now + ttl;
  needs_login = true;
  locked = false;
  logged_out = false;
}

-- The entry in the pool, or a new one; and its number.
unfoldable pub get_or_add : (now ttl : ℕ) → ℕ → Pool → Pool × ℕ
get_or_add now ttl user_id p = elim (lookup user_id p.pool) [
  | some id ↦ (p, id)
  | none ↦ (
    record {
      pool = insert user_id p.next_entry p.pool;
      entries = insert p.next_entry (new_entry now ttl user_id) p.entries;
      next_entry = suc p.next_entry;
    },
    p.next_entry,
  )
]

unfoldable pub enter : (now ttl max_pooled : ℕ) → ℕ → Pool → Pool × ℕ
unfolding reap evict_if_over_cap get_or_add
enter now ttl max_pooled user_id p =
    let p' = reap now user_id p in
    get_or_add now ttl user_id
      (elim (lookup user_id p'.pool) [ some id ↦ p' | none ↦ evict_if_over_cap max_pooled p' ])

-- `async with entry.lock`: taken by one job at a time; `none` waits.
unfoldable pub lock : ℕ → Pool → Option Pool
lock id p = elim (lookup id p.entries) [
  | none ↦ none
  | some e ↦
      if e.locked
      then none
      else some (record p { entries = insert id (record e { locked = true }) p.entries })
]

unfoldable pub unlock : ℕ → Pool → Pool
unfolding update_entry
unlock id = update_entry id (λ e. record e { locked = false })

unfoldable pub logged_in : ℕ → Pool → Pool
unfolding update_entry
logged_in id = update_entry id (λ e. record e { needs_login = false })

-- How the login or the work ends.
pub data Ended : Type 0 where
  succeeds auth_fault other_fault : Ended

-- The rest of with_pooled_session for a job of the user that holds the lock of the entry.
unfoldable pub leave : (now ttl : ℕ) → (user_id id : ℕ) → Ended → Pool → Pool
unfolding drop_session update_entry unlock
leave now ttl user_id id succeeds p =
    unlock id (update_entry id (λ e. record e { expires = now + ttl }) p)
leave now ttl user_id id auth_fault p = unlock id (drop_session user_id p).0
leave now ttl user_id id other_fault p = unlock id p
