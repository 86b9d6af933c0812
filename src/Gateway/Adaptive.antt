-- ===== src/Gateway/Adaptive.antt =====
-- _record_success, _record_error and _note_portal_responded of app/nitris/gateway.py: the circuit
-- breaker and the adaptive limits.
use updatednitr.Prelude.{
  ℕ, ◌+◌, ◌-◌, min, max, String, false, some, ltb, leb, nat_beq, if◌then◌else◌,
}
use updatednitr.Gateway.State.{closed, opened, half_open, Gateway}

unfoldable pub note_portal_responded : Gateway → Gateway
note_portal_responded g = elim g.circuit_state [
  | half_open ↦ record g { circuit_state = closed }
  | closed ↦ g
  | opened ↦ g
]

-- _record_success, in its three parts.
abbrev pub close_probe : Gateway → Gateway
close_probe g = elim g.circuit_state [
  | half_open ↦ record g { circuit_state = closed; probe_in_flight = false }
  | closed ↦ g
  | opened ↦ g
]

abbrev pub step_up : Gateway → Gateway
step_up g = record g {
  metrics = record g.metrics { consecutive_successes = 0 };
  current_max_concurrent =
      if ltb g.current_max_concurrent g.configured_max_concurrent
      then g.current_max_concurrent + 1
      else g.current_max_concurrent;
  current_login_interval =
      if ltb g.min_login_interval g.current_login_interval
      then max g.min_login_interval (g.current_login_interval - 250)
      else g.current_login_interval;
}

unfoldable pub record_success : Gateway → Gateway
record_success g =
    let counted = record g {
      metrics = record g.metrics {
        consecutive_errors = 0;
        consecutive_successes = g.metrics.consecutive_successes + 1;
      };
    } in
    let g' = close_probe counted in
    if leb 10 g'.metrics.consecutive_successes then step_up g' else g'

-- _record_error for a fault of the portal. (A LoginError never reaches it: acquire() catches that
-- one first.)
abbrev pub trip : ℕ → Gateway → Gateway
trip now g = record g {
  circuit_state = opened;
  circuit_opened_at = now;
  metrics = record g.metrics { circuit_trips = g.metrics.circuit_trips + 1 };
}

abbrev pub adapt_down : Gateway → Gateway
adapt_down g =
    if nat_beq g.metrics.consecutive_errors 3
    then record g {
      current_max_concurrent =
          if ltb 2 g.current_max_concurrent
          then g.current_max_concurrent - 1
          else g.current_max_concurrent;
      current_login_interval =
          if ltb g.current_login_interval 5000
          then min 5000 (g.current_login_interval + 500)
          else g.current_login_interval;
    }
    else g

abbrev pub trip_on_threshold : ℕ → Gateway → Gateway
trip_on_threshold now g =
    if leb g.circuit_error_threshold g.metrics.consecutive_errors
    then (elim g.circuit_state [ opened ↦ g | closed ↦ trip now g | half_open ↦ trip now g ])
    else g

abbrev pub count_error : Gateway → Gateway
count_error g = record g {
  metrics = record g.metrics {
    consecutive_errors = g.metrics.consecutive_errors + 1;
    consecutive_successes = 0;
  };
}

unfoldable pub record_error : ℕ → ℕ → String → Gateway → Gateway
record_error now wall msg g =
    let noted = record g {
      metrics = record g.metrics {
        total_errors = g.metrics.total_errors + 1;
        last_error = some msg;
        last_error_time = some wall;
      };
    } in
    elim g.circuit_state [
      | half_open ↦ trip now noted
      | closed ↦ trip_on_threshold now (adapt_down (count_error noted))
      | opened ↦ trip_on_threshold now (adapt_down (count_error noted))
    ]
