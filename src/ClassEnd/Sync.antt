-- ===== src/ClassEnd/Sync.antt =====
-- The cycle of app/services/class_end_sync.py. The job queue is a parameter: `enqueue` says whether it
-- takes the job of a user or raises. Times of a day are in microseconds, delays in minutes.
use updatednitr.Prelude.{
  ℕ, zero, suc, ◌+◌, ◌-◌, ◌*◌, ◌/◌, ◌%◌, max, Bool, true, false, not, ◌&&◌, Option, none, some,
  List, [], ◌∷◌, ◌++◌, keep, leb, if◌then◌else◌, ◌==◌, nat_eq, contains, add, discard,
}
use updatednitr.NowNext.Slots.{ClassSlot, minute, day}

-- A timetable entry with its user.
pub record Entry : Type 0 where
  pub user_id : ℕ
  pub slot : ClassSlot

-- _fired_day_key, as a number with 0 for the empty text, and _fired_user_ids.
pub record Fired : Type 0 where
  pub day_key : ℕ
  pub user_ids : List ℕ

pub record Now : Type 0 where
  pub day_key : ℕ
  pub weekday : ℕ
  pub time : ℕ

unfoldable pub reset_if_new_day : ℕ → Fired → Fired
reset_if_new_day key fired =
    if key == fired.day_key then fired else record { day_key = key; user_ids = [] }

-- The window, with the delay and the window together at most a day: both of its ends are on one day, or
-- there is none. A day is added, so the day before is the first.
unfoldable pub scan_window : (delay window : ℕ) → ℕ → Option (ℕ × ℕ)
scan_window delay window time =
    let target = time + day - delay * minute in
    let start = target - window * minute in
    if start / day == target / day then some (start % day, target % day) else none

-- The end of the last class of a user on a day of the week, 0 if there is none.
unfoldable pub last_end : List Entry → (weekday user_id : ℕ) → ℕ
last_end [] weekday user_id = 0
last_end (e ∷ es) weekday user_id =
    let rest = last_end es weekday user_id in
    if e.user_id == user_id && e.slot.weekday == weekday && not e.slot.is_break
    then max e.slot.end_time rest
    else rest

unfoldable pub has_class : List Entry → (weekday user_id : ℕ) → Bool
has_class [] weekday user_id = false
has_class (e ∷ es) weekday user_id =
    let rest = has_class es weekday user_id in
    if e.user_id == user_id && e.slot.weekday == weekday && not e.slot.is_break then true else rest

abbrev pub first : ℕ → List ℕ → List ℕ
first zero us = []
first (suc n) [] = []
first (suc n) (u ∷ us) = u ∷ first n us

-- The answer of the query: `users` are the users with valid credentials, in the order in which the
-- database gives them.
unfoldable pub find_class_end_candidates :
    List Entry → (users : List ℕ) → (weekday window_start window_end limit : ℕ) → List ℕ
unfolding last_end has_class
find_class_end_candidates entries users weekday window_start window_end limit = first limit (
    keep
      (λ u.
        has_class entries weekday u
        && leb window_start (last_end entries weekday u)
        && leb (last_end entries weekday u) window_end)
      users)

-- What a cycle finds in the database, and when.
pub record Cycle : Type 0 where
  pub now : Now
  pub entries : List Entry
  pub users : List ℕ

-- The users for whom a job has been queued, and what is left behind.
pub record Run (Q : Type 0) : Type 0 where
  pub enqueued : List ℕ
  pub user_ids : List ℕ
  pub queue : Q

module _ {Q : Type 0} (enqueue : ℕ → Q → Q × Bool) where
  abbrev pub queued : ℕ → Run Q → Run Q
  queued u later = record later { enqueued = u ∷ later.enqueued }

  -- The loop over the candidates.
  unfoldable pub fire : List ℕ → (user_ids : List ℕ) → Q → Run Q
  unfolding contains add discard
  fire [] user_ids q = record { enqueued = []; user_ids = user_ids; queue = q }
  fire (u ∷ us) user_ids q =
      let skipped = fire us user_ids q in
      let later = fire us (add u user_ids) (enqueue u q).0 in
      if contains u user_ids
      then skipped
      else if (enqueue u q).1
      then queued u later
      else record { enqueued = []; user_ids = discard u (add u user_ids); queue = (enqueue u q).0 }

  module _ (delay window batch : ℕ) where
    abbrev pub idle : Fired → Q → Run Q
    idle fired q = record { enqueued = []; user_ids = fired.user_ids; queue = q }

    abbrev pub scanned : Cycle → Fired → Q → ℕ × ℕ → Run Q
    scanned c fired q (window_start, window_end) =
        fire
          (find_class_end_candidates c.entries c.users c.now.weekday window_start window_end batch)
          (reset_if_new_day c.now.day_key fired).user_ids q

    -- run_class_end_sync_cycle: the run, and the new state of the module.
    unfoldable pub run_class_end_sync_cycle : Cycle → Fired → Q → Run Q × Fired
    unfolding scan_window fire find_class_end_candidates reset_if_new_day
    run_class_end_sync_cycle c fired q =
        if leb 5 c.now.weekday
        then (idle fired q, fired)
        else elim (scan_window delay window c.now.time) [
          | none ↦ (idle fired q, fired)
          | some w ↦
              let r = scanned c fired q w in
              (r, record { day_key = c.now.day_key; user_ids = r.user_ids })
        ]

    -- The users for whom a sequence of cycles queues a job.
    unfoldable pub run_cycles : List Cycle → Fired → Q → List ℕ
    unfolding run_class_end_sync_cycle
    run_cycles [] fired q = []
    run_cycles (c ∷ cs) fired q =
        let (r, fired') = run_class_end_sync_cycle c fired q in
        r.enqueued ++ run_cycles cs fired' r.queue
