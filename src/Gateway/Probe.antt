-- ===== src/Gateway/Probe.antt =====
-- The recovery probe of app/nitris/gateway.py: one at a time, how it ends, and how it can be lost.
use updatednitr.Prelude.{
  Option, none, some, ℕ, ◌-◌, ◌≤◌, ◌≡◌, ◌≢◌, ◌⊎◌, inl, inr, String, Bool, true, false, List, [],
  ◌∷◌, arith, All,
}
use updatednitr.Gateway.State.{closed, opened, half_open, Gateway}
use updatednitr.Gateway.Admission.{
  Admission, admitted, waiting, rejected, success, user_fault, foreign_fault, portal_fault, admit,
  leave, limit,
}

-- A caller at the gate: its class, its kind, and when it comes.
pub record Arrival : Type 0 where
  pub reserved : ℕ
  pub interactive : Bool
  pub is_login : Bool
  pub now : ℕ
  pub is_probe : Bool

abbrev pub arrive : Arrival → Gateway → Gateway × Admission
arrive a g = admit a.reserved a.interactive a.is_login a.now a.is_probe g

-- The flag is up and the circuit is not closed.
pub record IsArmed (g : Gateway) : Type 0 where
  pub flag : g.probe_in_flight ≡ true
  pub unhealthy : g.circuit_state ≢ closed

-- While the flag is up and the circuit is not closed, every caller is refused, and the flag stays.
arrive-IsArmed :
    (a : Arrival) (g : Gateway) → IsArmed g → ((arrive a g).1 ≡ rejected) × IsArmed (arrive a g).0
unfolding admit
arrive-IsArmed a g h = ground arith

arrive-IsArmed' :
    (a : Arrival) (g : Gateway)
    → g.circuit_state ≢ closed
    → (((arrive a g).1 ≡ rejected)) ⊎ IsArmed (arrive a g).0
unfolding admit
arrive-IsArmed' a g h = ground arith

-- The callers that come one after another, and what the gate says to each.
abbrev pub arrivals : List Arrival → Gateway → Gateway × List Admission
arrivals [] g = (g, [])
arrivals (a ∷ rest) g =
    let (g', x) = arrive a g in let (g'', xs) = arrivals rest g' in (g'', x ∷ xs)

arrivals-IsArmed :
    (rest : List Arrival) (g : Gateway)
    → IsArmed g
    → All (λ x. x ≡ rejected) (arrivals rest g).1 × IsArmed (arrivals rest g).0
arrivals-IsArmed [] g h = (tt, h)
arrivals-IsArmed (a ∷ rest) g h =
    let now = arrive-IsArmed a g h in
    let later = arrivals-IsArmed rest (arrive a g).0 now.1 in ((now.0, later.0), later.1)

-- A circuit that is not closed lets at most one caller through: whoever passes the gate does so as
-- the probe, admitted or waiting for a slot, and then every later caller, of any class and at any
-- time, is refused, as long as nobody leaves.
pub single_probe :
    (a : Arrival) (rest : List Arrival) (g : Gateway)
    → g.circuit_state ≢ closed
    → (arrive a g).1 ≢ rejected
    → (((arrive a g).1 ≡ admitted true) ⊎ ((arrive a g).1 ≡ waiting true))
      × All (λ x. x ≡ rejected) (arrivals rest (arrive a g).0).1
unfolding admit
single_probe a rest g h p = (ground arith, (arrivals-IsArmed rest _ armed).0)
  where
    armed : IsArmed (arrive a g).0
    armed = elim (arrive-IsArmed' a g h) [ inl r ↦ absurd (p r) | inr x ↦ x ]

-- A half-open circuit's probe puts the flag down however it ends. An answer of the portal, a
-- verdict on the user included, closes the circuit; a portal fault opens it again from now; any
-- other exception leaves it half open for the next probe.
pub leave-half_open :
    (now wall : ℕ) (msg : String) (is_login : Bool) (g : Gateway)
    → g.circuit_state ≡ half_open
    → ((leave now wall success is_login true g).circuit_state ≡ closed)
      × ((leave now wall success is_login true g).probe_in_flight ≡ false)
      × ((leave now wall user_fault is_login true g).circuit_state ≡ closed)
      × ((leave now wall user_fault is_login true g).probe_in_flight ≡ false)
      × ((leave now wall (portal_fault msg) is_login true g).circuit_state ≡ opened)
      × ((leave now wall (portal_fault msg) is_login true g).circuit_opened_at ≡ now)
      × ((leave now wall (portal_fault msg) is_login true g).probe_in_flight ≡ false)
      × ((leave now wall foreign_fault is_login true g).circuit_state ≡ half_open)
      × ((leave now wall foreign_fault is_login true g).probe_in_flight ≡ false)
unfolding leave
leave-half_open now wall msg is_login g h = ground arith

-- The calls that were under way when the circuit opened, as they end: a portal fault, or an
-- exception that is none of NITRIS's (no message).
abbrev pub departures : List (ℕ × Option String × Bool) → Gateway → Gateway
departures [] g = g
departures ((now, msg, is_login) ∷ rest) g =
    departures rest
      (leave now now (elim msg [ none ↦ foreign_fault | some m ↦ portal_fault m ]) is_login false g)

leave-IsArmed :
    (now : ℕ) (msg : Option String) (is_login : Bool) (g : Gateway)
    → IsArmed g
    → IsArmed (
        leave now now
          (elim msg [ none ↦ foreign_fault | some m ↦ portal_fault m ])
          is_login
          false
          g)
unfolding leave
leave-IsArmed now none is_login g h = ground arith
leave-IsArmed now (some m) is_login g h = ground arith

departures-IsArmed :
    (calls : List (ℕ × Option String × Bool)) (g : Gateway)
    → IsArmed g
    → IsArmed (departures calls g)
departures-IsArmed [] g h = h
departures-IsArmed ((now, msg, is_login) ∷ rest) g h =
    departures-IsArmed rest _ (leave-IsArmed now msg is_login g h)

-- The recovery probe can be lost. If the circuit's recovery time is over while no slot is free, the
-- caller that arms the probe has to wait; when the calls under way then fail, it wakes, finds its
-- own flag up and is refused, and nobody is left to put the flag down: from then on every caller is
-- refused, at any time, although nothing is in flight.
pub probe_lost :
    (a : Arrival) (calls : List (ℕ × Option String × Bool)) (later : List Arrival) (g : Gateway)
    → g.circuit_state ≡ opened
    → g.probe_in_flight ≡ false
    → g.circuit_recovery ≤ a.now - g.circuit_opened_at
    → limit a.reserved a.interactive g ≤ g.metrics.active_requests
    → ((arrive a g).1 ≡ waiting true)
      × All (λ x. x ≡ rejected) (arrivals later (departures calls (arrive a g).0)).1
      × ((arrivals later (departures calls (arrive a g).0)).0.probe_in_flight ≡ true)
unfolding admit
probe_lost a calls later g o p e full =
    let armed : IsArmed (arrive a g).0 = ground arith in
    let after = arrivals-IsArmed later _ (departures-IsArmed calls _ armed) in
    (ground arith, after.0, after.1.flag)
