-- ===== src/Examples/Circuit.antt =====
-- Runs of the gateway (app/nitris/gateway.py).
use updatednitr.Prelude.{◌*◌, ◌≡◌, refl, ◌≢◌, ◌⊎◌, true, false, none, [], ◌∷◌, arith, All, nat_eq}
use updatednitr.Gateway.State.{Config, Gateway, init, closed, opened, token_unit, fresh_metrics}
use updatednitr.Gateway.Admission.{rejected, waiting, admitted, admit}
use updatednitr.Gateway.Pacing.{dispatch_tokens}
use updatednitr.Gateway.Dispatched.{dispatch_tokens-IsDispatched, IsDispatched}
use updatednitr.Gateway.Probe.{Arrival, arrive, arrivals, single_probe, probe_lost, departures}
use updatednitr.Gateway.Slots.{
  Section, Traffic, IsCounted, here, next, enter, Reachable-init-IsCounted,
}

abbrev config : Config
config = record {
  gateway_max_concurrent = 4;
  gateway_min_login_interval = 1000;
  gateway_circuit_error_threshold = 2;
  gateway_circuit_recovery = 60000;
  login_burst = 3;
}

abbrev started : Gateway
started = record {
  configured_max_concurrent = 4;
  current_max_concurrent = 4;
  min_login_interval = 1000;
  current_login_interval = 1000;
  circuit_error_threshold = 2;
  circuit_recovery = 60000;
  login_burst = 3;
  login_tokens = 2 * token_unit;
  login_last_refill = 100;
  pace_queue =
      record { interactive = false; event = 1 } ∷ record { interactive = true; event = 2 } ∷ [];
  quarantined = 7 ∷ [];
  circuit_state = closed;
  circuit_opened_at = 0;
  probe_in_flight = false;
  metrics = fresh_metrics;
}

-- One call is under way.
abbrev busy : Gateway
busy = record started { metrics = record fresh_metrics { active_requests = 1 } }

abbrev tripped : Gateway
tripped = record started { circuit_state = opened; circuit_opened_at = 1000 }

-- The circuit is open, and all slots are taken.
abbrev full : Gateway
full = record tripped { metrics = record fresh_metrics { active_requests = 4 } }

abbrev caller : Arrival
caller = record {
  reserved = 1;
  interactive = true;
  is_login = false;
  now = 90000;
  is_probe = false;
}

dispatch_tokens-IsDispatched_example :
    IsDispatched started.login_tokens started.pace_queue (record {
      tokens = (dispatch_tokens started).0.login_tokens;
      queue = (dispatch_tokens started).0.pace_queue;
      granted = (dispatch_tokens started).1;
    })
dispatch_tokens-IsDispatched_example = dispatch_tokens-IsDispatched started

first_passes : (arrive caller tripped).1 ≢ rejected
unfolding admit
first_passes e = cc

single_probe_example :
    (((arrive caller tripped).1 ≡ admitted true) ⊎ ((arrive caller tripped).1 ≡ waiting true))
    × All (λ x. x ≡ rejected) (arrivals (caller ∷ caller ∷ []) (arrive caller tripped).0).1
single_probe_example = single_probe caller (caller ∷ caller ∷ []) tripped (λ e. cc) first_passes

probe_lost_example :
    ((arrive caller full).1 ≡ waiting true)
    × All
        (λ x. x ≡ rejected)
        (arrivals (caller ∷ []) (departures ((91000, none, false) ∷ []) (arrive caller full).0)).1
    × ((arrivals
          (caller ∷ [])
          (departures ((91000, none, false) ∷ []) (arrive caller full).0)).0.probe_in_flight
        ≡ true)
probe_lost_example =
    probe_lost caller ((91000, none, false) ∷ []) (caller ∷ []) full refl refl (omega arith)
      (omega arith)

abbrev at_start : Traffic
at_start = record { gateway = init config none none none none 100; holding = 0; pacing = 0 }

abbrev entered : Traffic
entered = record {
  gateway = (admit 1 true true 200 false at_start.gateway).0;
  holding = 1;
  pacing = 0;
}

enters : Section 1 at_start entered
unfolding admit init
enters = enter true true false 200 false refl

Reachable-init-IsCounted_example : IsCounted entered
Reachable-init-IsCounted_example =
    Reachable-init-IsCounted 1 config none none none none 100 (omega arith) (next here enters)
