-- ===== src/Gateway/Admission.antt =====
-- acquire() of app/nitris/gateway.py: admission, the slots, and what a leaving caller does.
use updatednitr.Prelude.{
  ℕ, ◌+◌, ◌-◌, max, String, Bool, true, false, Option, none, some, ltb, leb, if◌then◌else◌,
}
use updatednitr.Gateway.State.{closed, opened, half_open, Gateway}
use updatednitr.Gateway.Adaptive.{record_success, record_error, note_portal_responded}

-- Admission: what one pass of the loop in acquire() ends with. A caller that waits keeps its
-- `is_probe` for the next pass.
pub data Admission : Type 0 where
  admitted : (is_probe : Bool) → Admission
  waiting : (is_probe : Bool) → Admission
  rejected : Admission

-- The verdict of the circuit gate: go on, with `is_probe`, or NitrisCircuitOpenError.
pub data Gate : Type 0 where
  pass : (is_probe : Bool) → Gate
  refuse : Gate

unfoldable pub half_open_gate : Gateway → Gateway × Gate
half_open_gate g =
    if g.probe_in_flight then (g, refuse) else (record g { probe_in_flight = true }, pass true)

unfoldable pub circuit_gate : ℕ → Bool → Gateway → Gateway × Gate
unfolding half_open_gate
circuit_gate now is_probe g = elim g.circuit_state [
  | opened ↦
      if leb g.circuit_recovery (now - g.circuit_opened_at)
      then half_open_gate (record g { circuit_state = half_open })
      else (g, refuse)
  | half_open ↦ half_open_gate g
  | closed ↦ (g, pass is_probe)
]

abbrev pub limit : (reserved : ℕ) → Bool → Gateway → ℕ
limit reserved interactive g =
    if interactive then g.current_max_concurrent else max 1 (g.current_max_concurrent - reserved)

unfoldable pub take_slot : Bool → Gateway → Gateway
take_slot is_login g = record g {
  metrics = record g.metrics {
    active_requests = g.metrics.active_requests + 1;
    active_logins = if is_login then g.metrics.active_logins + 1 else g.metrics.active_logins;
  };
}

unfoldable pub capacity : (reserved : ℕ) → Bool → Bool → Gateway × Gate → Gateway × Admission
unfolding take_slot
capacity reserved interactive is_login (g, refuse) = (g, rejected)
capacity reserved interactive is_login (g, pass is_probe) =
    if leb (limit reserved interactive g) g.metrics.active_requests
    then (g, waiting is_probe)
    else (take_slot is_login g, admitted is_probe)

-- One pass of the loop in acquire(), the whole locked section.
unfoldable pub admit :
    (reserved : ℕ) (interactive is_login : Bool) (now : ℕ) (is_probe : Bool)
    → Gateway
    → Gateway × Admission
unfolding circuit_gate capacity
admit reserved interactive is_login now is_probe g =
    capacity reserved interactive is_login (circuit_gate now is_probe g)

-- _caller_is_interactive, on the name of the current task: what `startswith` finds.
pub data TaskName : Type 0 where
  nitris_bg nitris_shared other : TaskName

unfoldable pub caller_is_interactive : TaskName → Bool
caller_is_interactive nitris_bg = false
caller_is_interactive nitris_shared = false
caller_is_interactive other = true

-- After admission, before the body: total_requests, and for a login its pacing.
unfoldable pub begin_request : Bool → ℕ → Gateway → Gateway
begin_request is_login now g = record g {
  metrics = record g.metrics {
    total_requests = g.metrics.total_requests + 1;
    total_logins = if is_login then g.metrics.total_logins + 1 else g.metrics.total_logins;
    last_login_time = if is_login then now else g.metrics.last_login_time;
  };
}

-- The `finally` of acquire().
unfoldable pub release : Bool → Bool → Gateway → Gateway
release is_login is_probe g = record g {
  probe_in_flight = if is_probe then false else g.probe_in_flight;
  metrics = record g.metrics {
    active_requests = g.metrics.active_requests - 1;
    active_logins = if is_login then g.metrics.active_logins - 1 else g.metrics.active_logins;
  };
}

-- How the body of `async with acquire()` ends: the arms of the `try`.
pub data Outcome : Type 0 where
  success user_fault foreign_fault : Outcome
  portal_fault : String → Outcome

unfoldable pub settle : ℕ → ℕ → Outcome → Gateway → Gateway
unfolding record_success record_error note_portal_responded
settle now wall success g = record_success g
settle now wall user_fault g = note_portal_responded g
settle now wall (portal_fault msg) g = record_error now wall msg g
settle now wall foreign_fault g = g

unfoldable pub leave : ℕ → ℕ → Outcome → Bool → Bool → Gateway → Gateway
unfolding settle release
leave now wall outcome is_login is_probe g = release is_login is_probe (settle now wall outcome g)

-- _release_slot and one pass of _reacquire_slot; `none` waits.
unfoldable pub release_slot : Gateway → Gateway
release_slot g = record g {
  metrics = record g.metrics {
    active_requests =
        if ltb 0 g.metrics.active_requests
        then g.metrics.active_requests - 1
        else g.metrics.active_requests;
  };
}

unfoldable pub reacquire_slot : Gateway → Option Gateway
reacquire_slot g =
    if leb g.current_max_concurrent g.metrics.active_requests
    then none
    else some (record g {
      metrics = record g.metrics { active_requests = g.metrics.active_requests + 1 };
    })
