-- ===== src/JobQueue/State.antt =====
-- The state of app/nitris/job_queue.py: jobs, futures, the two queues, the in-flight table.
use updatednitr.Prelude.{
  ℕ, ◌+◌, ◌-◌, min, max, String, Bool, true, false, Option, none, some, List, [], ◌∷◌, ltb, nat_beq,
  if◌then◌else◌, Dict, lookup, insert, erase, nat_eq, string_eq, length, ◌==◌,
}

-- HIGH, MEDIUM and LOW; INTERACTIVE and NORMAL are other names of the first two.
pub data Priority : Type 0 where
  high medium low : Priority

unfoldable pub to_int : Priority → ℕ
to_int high = 1
to_int medium = 2
to_int low = 3

pub data Exn : Type 0 where
  unknown_job_type : String → Exn  -- ValueError
  queue_saturated queue_full : Exn  -- RuntimeError
  login_error credentials_quarantined login_unavailable : Exn
  other : String → Exn

pub data Future : Type 0 where
  pending cancelled : Future
  result : String → Future
  exception : Exn → Future

abbrev pub done : Future → Bool
done pending = false
done cancelled = true
done (result v) = true
done (exception e) = true

-- `payload`: the retry count, and all the rest of the dict.
pub record Payload : Type 0 where
  pub retry_attempt : Option ℕ
  pub rest : Dict String String

abbrev pub attempt_count : Payload → ℕ
attempt_count p = elim p.retry_attempt [ none ↦ 0 | some n ↦ n ]

pub record Job : Type 0 where
  pub priority : ℕ
  pub created_at : ℕ
  pub job_type : String
  pub user_id : Option ℕ
  pub dedup_key : Option String
  pub payload : Payload
  pub future : ℕ

-- The order of the dataclass: by priority, then by creation.
unfoldable pub job_lt : Job → Job → Bool
job_lt a b =
    if nat_beq a.priority b.priority
    then ltb a.created_at b.created_at
    else ltb a.priority b.priority

-- asyncio.PriorityQueue: `put` adds, `get` takes a least job; among equals, the one put first.
unfoldable pub pop_least : Job → List Job → Job × List Job
pop_least j [] = (j, [])
pop_least j (k ∷ ks) =
    let (m, rest) = pop_least (if job_lt k j then k else j) ks in
    (m, (if job_lt k j then j else k) ∷ rest)

unfoldable pub get_nowait : List Job → Option (Job × List Job)
get_nowait [] = none
get_nowait (j ∷ js) = some (pop_least j js)

pub record Queue : Type 0 where
  pub max_queue_depth : ℕ
  pub max_retries : ℕ  -- config.JOB_MAX_RETRIES
  pub interactive_queue : List Job
  pub background_queue : List Job
  pub job_event : Bool
  pub handlers : Dict String ℕ  -- handler_min_params too
  pub in_flight : Dict String ℕ
  pub futures : Dict ℕ Future
  pub next_future : ℕ
  pub running : Bool

unfoldable pub init : ℕ → ℕ → Queue
init max_queue_depth max_retries = record {
  max_queue_depth = max_queue_depth;
  max_retries = max_retries;
  interactive_queue = [];
  background_queue = [];
  job_event = false;
  handlers = [];
  in_flight = [];
  futures = [];
  next_future = 0;
  running = false;
}

-- How __init__ splits the workers: interactive, background, shared.
unfoldable pub split_workers : (total configured : ℕ) → Option ℕ → ℕ × ℕ × ℕ
split_workers total configured wanted =
    if nat_beq total 0
    then (0, 0, 0)
    else if nat_beq total 1
    then (0, 0, 1)
    else (let interactive : ℕ = elim wanted [ none ↦ min configured (total - 1) | some n ↦ n ] in
        (interactive, max 1 (total - interactive), 0))

unfoldable pub get_queue_depth : Queue → ℕ
get_queue_depth q = length q.interactive_queue + length q.background_queue

unfoldable pub get_active_dedup_count : Queue → ℕ
get_active_dedup_count q = length q.in_flight

abbrev pub state_of : ℕ → Queue → Future
state_of f q = elim (lookup f q.futures) [ none ↦ pending | some s ↦ s ]

-- `if future and not future.done(): future.set_…`
unfoldable pub settle : ℕ → Future → Queue → Queue
settle f s q = if done (state_of f q) then q else record q { futures = insert f s q.futures }

-- `if dedup_key`: None and the empty string are false.
abbrev pub truthy : Option String → Option String
truthy none = none
truthy (some k) = if k == "" then none else some k

unfoldable pub cleanup_dedup : Option String → Queue → Queue
cleanup_dedup key q = elim (truthy key) [
  | none ↦ q
  | some k ↦ record q { in_flight = erase k q.in_flight }
]

unfoldable pub register_handler : String → ℕ → Queue → Queue
register_handler job_type params q = record q { handlers = insert job_type params q.handlers }

unfoldable pub cancel_dedup : String → Queue → Queue × Bool
cancel_dedup key q = elim (lookup key q.in_flight) [
  | none ↦ (q, false)
  | some f ↦
      if done (state_of f q)
      then (q, false)
      else (record q { futures = insert f cancelled q.futures }, true)
]
