-- ===== src/Scheduler/Rows.antt =====
-- The table `module_sync_schedule` and its updates in app/services/scheduler_service.py. A statement
-- is atomic, so it is a function on the table. Times are in seconds.
use updatednitr.Prelude.{
  ℕ, zero, suc, ◌+◌, ◌-◌, ◌*◌, ◌/◌, ◌^◌, min, max, String, Bool, true, false, not, ◌&&◌, ◌||◌,
  Option, none, some, List, [], ◌∷◌, ◌++◌, map, ltb, leb, keep, if◌then◌else◌, ◌==◌, nat_eq,
  string_eq, contains, Dict, lookup,
}

pub data Status : Type 0 where
  pending success failure disabled : Status

pub record Row : Type 0 where
  pub id : ℕ
  pub user_id : ℕ
  pub module_name : String
  pub last_synced_at : Option ℕ
  pub next_sync_at : ℕ
  pub last_status : Status
  pub last_error : Option String
  pub consecutive_failures : ℕ
  pub scheduler_claimed_at : Option ℕ
  pub updated_at : ℕ

abbrev pub is_disabled : Status → Bool
is_disabled pending = false
is_disabled success = false
is_disabled failure = false
is_disabled disabled = true

-- scheduler_claimed_at IS NULL OR scheduler_claimed_at < NOW() - stale_secs
abbrev pub is_free : (now stale : ℕ) → Option ℕ → Bool
is_free now stale none = true
is_free now stale (some t) = ltb (t + stale) now

unfoldable pub is_due : (now stale : ℕ) → Row → Bool
is_due now stale r =
    leb r.next_sync_at now
    && not (is_disabled r.last_status)
    && is_free now stale r.scheduler_claimed_at

-- ORDER BY next_sync_at ASC
unfoldable pub insert_by_next : Row → List Row → List Row
insert_by_next r [] = r ∷ []
insert_by_next r (s ∷ rs) =
    let rest = insert_by_next r rs in
    if leb r.next_sync_at s.next_sync_at then r ∷ s ∷ rs else s ∷ rest

unfoldable pub order_by_next : List Row → List Row
order_by_next [] = []
order_by_next (r ∷ rs) = insert_by_next r (order_by_next rs)

abbrev pub limit : ℕ → List Row → List Row
limit n [] = []
limit zero (r ∷ rs) = []
limit (suc n) (r ∷ rs) = r ∷ limit n rs

abbrev pub claim_row : ℕ → Row → Row
claim_row now r = record r { scheduler_claimed_at = some now; updated_at = now }

-- UPDATE … WHERE id IN ids
unfoldable pub update_where : List ℕ → (Row → Row) → List Row → List Row
update_where ids f [] = []
update_where ids f (r ∷ rs) = (if contains r.id ids then f r else r) ∷ update_where ids f rs

-- The rows that the SELECT of a claim gives.
unfoldable pub select_due : (now stale batch : ℕ) → List Row → List Row
select_due now stale batch t = limit batch (order_by_next (keep (is_due now stale) t))

-- The table after a claim, and the claimed rows.
unfoldable pub claim_due_schedule_rows : (now stale batch : ℕ) → List Row → List Row × List Row
unfolding select_due update_where
claim_due_schedule_rows now stale batch t =
    let due = select_due now stale batch t in
    (update_where (map (λ (r : Row). r.id) due) (claim_row now) t, map (claim_row now) due)

-- config.MODULE_TTL_SECONDS.get(module_name, 3600)
abbrev pub ttl_of : Dict String ℕ → String → ℕ
ttl_of ttls module_name = elim (lookup module_name ttls) [ none ↦ 3600 | some ttl ↦ ttl ]

-- The time to the next sync after a success. `jittered` is ttl_seconds + jitter, which the code draws
-- at random within 10 % of the TTL.
abbrev pub total_ttl : (jittered : ℕ) → ℕ
total_ttl jittered = max 60 jittered

abbrev pub succeeded : (now jittered : ℕ) → Row → Row
succeeded now jittered r = record r {
  last_synced_at = some now;
  next_sync_at = now + total_ttl jittered;
  last_status = success;
  last_error = none;
  consecutive_failures = 0;
  scheduler_claimed_at = none;
  updated_at = now;
}

unfoldable pub backoff_seconds : (ttl failures : ℕ) → ℕ
backoff_seconds ttl failures = min (ttl * min (2 ^ (failures - 1)) 6) (24 * 3600)

abbrev pub new_status : (failures : ℕ) → Status
new_status failures = if leb 5 failures then disabled else failure

abbrev pub failed : (now ttl failures : ℕ) → String → Row → Row
failed now ttl failures error_msg r = record r {
  next_sync_at = now + backoff_seconds ttl failures;
  last_status = new_status failures;
  last_error = some error_msg;
  consecutive_failures = failures;
  scheduler_claimed_at = none;
  updated_at = now;
}

-- SELECT consecutive_failures … .first()
unfoldable pub failures_of : ℕ → List Row → Option ℕ
failures_of id [] = none
failures_of id (r ∷ rs) = if r.id == id then some r.consecutive_failures else failures_of id rs

-- update_schedule_after_job: with success=True, and with success=False.
unfoldable pub update_schedule_success : (now jittered : ℕ) → ℕ → List Row → List Row
unfolding update_where
update_schedule_success now jittered id = update_where (id ∷ []) (succeeded now jittered)

-- The SELECT of the failures and then the UPDATE, with nothing that writes the row between them.
unfoldable pub update_schedule_failure : (now ttl : ℕ) → ℕ → String → List Row → List Row
unfolding update_where failures_of
update_schedule_failure now ttl id error_msg t =
    let failures : ℕ = elim (failures_of id t) [ none ↦ 1 | some n ↦ n + 1 ] in
    update_where (id ∷ []) (failed now ttl failures error_msg) t

-- Has the user a row for the module?
unfoldable pub has_schedule : ℕ → String → List Row → Bool
has_schedule user_id module_name [] = false
has_schedule user_id module_name (r ∷ rs) =
    (r.user_id == user_id && r.module_name == module_name) || has_schedule user_id module_name rs

-- ensure_schedule_exists: floor = min(floor, ttl / 2), and a random draw from [floor, max(ttl, floor +
-- 1)], of which `draw` says how far from the floor. Halves of a second are cut off.
unfoldable pub spread_seconds : (ttl floor draw : ℕ) → ℕ
spread_seconds ttl floor draw =
    let low = min floor (ttl / 2) in min (low + draw) (max ttl (low + 1))

-- INSERT … ON CONFLICT (user_id, module_name) DO NOTHING; `id` is the next of the sequence.
unfoldable pub ensure_schedule_exists :
    (now spread : ℕ) → (id user_id : ℕ) → String → List Row → List Row
unfolding has_schedule
ensure_schedule_exists now spread id user_id module_name t =
    if has_schedule user_id module_name t
    then t
    else t
      ++ record {
        id = id;
        user_id = user_id;
        module_name = module_name;
        last_synced_at = none;
        next_sync_at = now + spread;
        last_status = pending;
        last_error = none;
        consecutive_failures = 0;
        scheduler_claimed_at = none;
        updated_at = now;
      }
        ∷ []
