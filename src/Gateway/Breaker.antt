-- ===== src/Gateway/Breaker.antt =====
-- The circuit breaker of app/nitris/gateway.py: when it trips, when it admits, how a probe ends.
use updatednitr.Prelude.{
  ◌↔◌, ℕ, suc, ◌+◌, ◌-◌, ◌≤◌, ◌<◌, ◌≡◌, ◌≢◌, ◌⊎◌, inl, inr, String, Bool, true, false, List, [],
  ◌∷◌, arith, leb, if◌then◌else◌,
}
use updatednitr.Gateway.State.{closed, opened, half_open, Gateway, is_circuit_open}
use updatednitr.Gateway.Adaptive.{record_error}
use updatednitr.Gateway.Admission.{admitted, waiting, rejected, admit, limit}

-- Portal faults, one after the other, at the given times.
abbrev pub faults : List ℕ → String → Gateway → Gateway
faults [] msg g = g
faults (now ∷ times) msg g = faults times msg (record_error now now msg g)

abbrev pub count : List ℕ → ℕ
count [] = 0
count (t ∷ ts) = suc (count ts)

record_error-opened :
    (now : ℕ) (msg : String) (g : Gateway)
    → g.circuit_state ≡ opened
    → (record_error now now msg g).circuit_state ≡ opened
unfolding record_error
record_error-opened now msg g h = ground arith

faults-opened :
    (times : List ℕ) (msg : String) (g : Gateway)
    → g.circuit_state ≡ opened
    → (faults times msg g).circuit_state ≡ opened
faults-opened [] msg g h = h
faults-opened (t ∷ ts) msg g h = faults-opened ts msg _ (record_error-opened t msg g h)

record_error-closed :
    (now : ℕ) (msg : String) (g : Gateway)
    → g.circuit_state ≡ closed
    → ((g.circuit_error_threshold ≤ g.metrics.consecutive_errors + 1)
        × ((record_error now now msg g).circuit_state ≡ opened)
        × ((record_error now now msg g).circuit_opened_at ≡ now))
      ⊎ ((g.metrics.consecutive_errors + 1 < g.circuit_error_threshold)
          × ((record_error now now msg g).circuit_state ≡ closed)
          × ((record_error now now msg g).metrics.consecutive_errors
              ≡ g.metrics.consecutive_errors + 1)
          × ((record_error now now msg g).circuit_error_threshold ≡ g.circuit_error_threshold))
unfolding record_error
record_error-closed now msg g h = ground arith

-- From a closed circuit with `n` consecutive errors: it is open after the faults exactly when the
-- count has reached the threshold.
abbrev IsTripped : Gateway → Type 0
IsTripped g = g.circuit_state ≡ opened

-- A closed circuit below its threshold trips after a run of portal faults, with no success between,
-- exactly when the count of consecutive errors reaches the threshold; until then it stays closed.
pub faults-trip :
    (times : List ℕ) (msg : String) (g : Gateway)
    → g.circuit_state ≡ closed
    → g.metrics.consecutive_errors < g.circuit_error_threshold
    → ((g.circuit_error_threshold ≤ g.metrics.consecutive_errors + count times)
        × ((faults times msg g).circuit_state ≡ opened))
      ⊎ ((g.metrics.consecutive_errors + count times < g.circuit_error_threshold)
          × ((faults times msg g).circuit_state ≡ closed))
faults-trip [] msg g c h = inr (omega arith, c)
faults-trip (t ∷ ts) msg g c h = elim (record_error-closed t msg g c) [
  | inl (over, o, _) ↦ inl (omega arith, faults-opened ts msg _ o)
  | inr (under, c', n, th) ↦ elim (faults-trip ts msg (record_error t t msg g) c' (omega arith)) [
    | inl (over, o) ↦ inl (omega arith, o)
    | inr (below, k) ↦ inr (omega arith, k)
  ]
]

-- acquire() on an open circuit: before the recovery time it refuses and changes nothing. After it,
-- with no probe under way, it arms one probe: the circuit is half open, the flag is up, and the
-- caller is admitted if a slot is free and waits if none is.
pub admit-opened :
    (reserved : ℕ) (interactive is_login is_probe : Bool) (now : ℕ) (g : Gateway)
    → g.circuit_state ≡ opened
    → let r = admit reserved interactive is_login now is_probe g in
      ((now - g.circuit_opened_at < g.circuit_recovery) × (r ≡ (g, rejected)))
      ⊎ ((g.circuit_recovery ≤ now - g.circuit_opened_at)
          × (r.0.circuit_state ≡ half_open)
          × (r.0.probe_in_flight ≡ true)
          × (r.1 ≡ (
              if g.probe_in_flight
              then rejected
              else if leb (limit reserved interactive g) g.metrics.active_requests
              then waiting true
              else admitted true)))
unfolding admit
admit-opened reserved interactive is_login is_probe now g h = ground arith

-- is_circuit_open() answers True exactly when a background caller had better not claim work: for
-- an open circuit it agrees with what acquire() would do to a caller at that time, when no probe
-- is under way, and a half-open circuit counts as open.
pub is_circuit_open-admit :
    (reserved : ℕ) (interactive is_login is_probe : Bool) (now : ℕ) (g : Gateway)
    → g.circuit_state ≢ half_open
    → g.probe_in_flight ≡ false
    → (is_circuit_open g now ≡ true)
      ↔ ((admit reserved interactive is_login now is_probe g).1 ≡ rejected)
unfolding admit is_circuit_open
is_circuit_open-admit reserved interactive is_login is_probe now g h p = grind arith
