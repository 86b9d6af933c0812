-- ===== src/Gateway/State.antt =====
-- The state of app/nitris/gateway.py, its start, the reading predicate, and the quarantine guard.
use updatednitr.Prelude.{
  ℕ, ◌-◌, ◌*◌, max, String, Bool, true, false, Option, none, some, List, [], ltb, nat_beq,
  if◌then◌else◌, nat_eq, contains, add, discard,
}

-- OPEN is `opened`, since `open` is a word of the language.
pub data CircuitState : Type 0 where
  closed opened half_open : CircuitState

pub record Metrics : Type 0 where
  pub total_requests : ℕ
  pub total_logins : ℕ
  pub total_errors : ℕ
  pub consecutive_errors : ℕ
  pub consecutive_successes : ℕ
  pub active_requests : ℕ
  pub active_logins : ℕ
  pub circuit_trips : ℕ
  pub last_error : Option String
  pub last_error_time : Option ℕ
  pub last_login_time : ℕ

abbrev pub fresh_metrics : Metrics
fresh_metrics = record {
  total_requests = 0;
  total_logins = 0;
  total_errors = 0;
  consecutive_errors = 0;
  consecutive_successes = 0;
  active_requests = 0;
  active_logins = 0;
  circuit_trips = 0;
  last_error = none;
  last_error_time = none;
  last_login_time = 0;
}

-- A waiter of the pacing queue: is it interactive, and the number of its event.
pub record Waiter : Type 0 where
  pub interactive : Bool
  pub event : ℕ

pub record Gateway : Type 0 where
  pub configured_max_concurrent : ℕ
  pub current_max_concurrent : ℕ
  pub min_login_interval : ℕ
  pub current_login_interval : ℕ
  pub circuit_error_threshold : ℕ
  pub circuit_recovery : ℕ  -- circuit_recovery_seconds, in ms
  pub login_burst : ℕ
  pub login_tokens : ℕ
  pub login_last_refill : ℕ
  pub pace_queue : List Waiter
  pub quarantined : List ℕ
  pub circuit_state : CircuitState
  pub circuit_opened_at : ℕ
  pub probe_in_flight : Bool
  pub metrics : Metrics

-- What __init__ reads of app.config.
pub record Config : Type 0 where
  pub gateway_max_concurrent : ℕ
  pub gateway_min_login_interval : ℕ
  pub gateway_circuit_error_threshold : ℕ
  pub gateway_circuit_recovery : ℕ
  pub login_burst : ℕ

abbrev pub token_unit : ℕ
token_unit = 1000000

-- `x or default`: None and 0 take the default.
abbrev pub or_default : Option ℕ → ℕ → ℕ
or_default none d = d
or_default (some n) d = if nat_beq n 0 then d else n

unfoldable pub init : Config → Option ℕ → Option ℕ → Option ℕ → Option ℕ → ℕ → Gateway
init c max_concurrent min_login_interval error_threshold recovery now =
    let cap = or_default max_concurrent c.gateway_max_concurrent in
    let interval = or_default min_login_interval c.gateway_min_login_interval in
    record {
      configured_max_concurrent = cap;
      current_max_concurrent = cap;
      min_login_interval = interval;
      current_login_interval = interval;
      circuit_error_threshold = or_default error_threshold c.gateway_circuit_error_threshold;
      circuit_recovery = or_default recovery c.gateway_circuit_recovery;
      login_burst = max 1 c.login_burst;
      login_tokens = max 1 c.login_burst * token_unit;
      login_last_refill = now;
      pace_queue = [];
      quarantined = [];
      circuit_state = closed;
      circuit_opened_at = 0;
      probe_in_flight = false;
      metrics = fresh_metrics;
    }

unfoldable pub is_circuit_open : Gateway → ℕ → Bool
is_circuit_open g now = elim g.circuit_state [
  | half_open ↦ true
  | opened ↦ ltb (now - g.circuit_opened_at) g.circuit_recovery
  | closed ↦ false
]

-- The quarantine guard.
unfoldable pub quarantine : ℕ → Gateway → Gateway
quarantine user_id g = record g { quarantined = add user_id g.quarantined }

unfoldable pub unquarantine : ℕ → Gateway → Gateway
unquarantine user_id g = record g { quarantined = discard user_id g.quarantined }

unfoldable pub is_quarantined : ℕ → Gateway → Bool
is_quarantined user_id g = contains user_id g.quarantined
