-- ===== src/Gateway/Slots.antt =====
-- The slots of app/nitris/gateway.py under any interleaving of its callers.
use updatednitr.Prelude.{ℕ, suc, ◌+◌, ◌-◌, ◌≤◌, ◌<◌, min, max, ◌≡◌, Bool, Option, some, arith}
use updatednitr.Gateway.State.{Gateway, Config, init}
use updatednitr.Gateway.Admission.{
  admitted, waiting, rejected, Outcome, success, user_fault, foreign_fault, portal_fault, admit,
  leave, release_slot, reacquire_slot, begin_request, settle,
}

-- The gateway, the number of callers that hold a slot, and of those that wait for their login's
-- pacing without one.
pub record Traffic : Type 0 where
  pub gateway : Gateway
  pub holding : ℕ
  pub pacing : ℕ

-- A locked section of one caller.
pub data Section (reserved : ℕ) : Traffic → Traffic → Type 0 where
  enter :
      (interactive is_login is_probe : Bool) (now : ℕ) {g g' : Gateway} {h p : ℕ} (probe : Bool)
      → admit reserved interactive is_login now is_probe g ≡ (g', admitted probe)
      → Section reserved
          (record { gateway = g; holding = h; pacing = p })
          (record { gateway = g'; holding = suc h; pacing = p })
  wait :
      (interactive is_login is_probe : Bool) (now : ℕ) {g g' : Gateway} {h p : ℕ} (probe : Bool)
      → admit reserved interactive is_login now is_probe g ≡ (g', waiting probe)
      → Section reserved
          (record { gateway = g; holding = h; pacing = p })
          (record { gateway = g'; holding = h; pacing = p })
  refuse :
      (interactive is_login is_probe : Bool) (now : ℕ) {g g' : Gateway} {h p : ℕ}
      → admit reserved interactive is_login now is_probe g ≡ (g', rejected)
      → Section reserved
          (record { gateway = g; holding = h; pacing = p })
          (record { gateway = g'; holding = h; pacing = p })
  begin :
      (is_login : Bool) (now : ℕ) {g : Gateway} {h p : ℕ}
      → Section reserved
          (record { gateway = g; holding = h; pacing = p })
          (record { gateway = begin_request is_login now g; holding = h; pacing = p })
  pace :
      {g : Gateway} {h p : ℕ}
      → Section reserved
          (record { gateway = g; holding = suc h; pacing = p })
          (record { gateway = release_slot g; holding = h; pacing = suc p })
  resume :
      {g g' : Gateway} {h p : ℕ}
      → reacquire_slot g ≡ some g'
      → Section reserved
          (record { gateway = g; holding = h; pacing = suc p })
          (record { gateway = g'; holding = suc h; pacing = p })
  exit :
      (now wall : ℕ) (outcome : Outcome) (is_login is_probe : Bool) {g : Gateway} {h p : ℕ}
      → Section reserved
          (record { gateway = g; holding = suc h; pacing = p })
          (record { gateway = leave now wall outcome is_login is_probe g; holding = h; pacing = p })

pub data Reachable (reserved : ℕ) (t : Traffic) : Traffic → Type 0 where
  here : Reachable reserved t t
  next : {u v : Traffic} → Reachable reserved t u → Section reserved u v → Reachable reserved t v

-- The adaptive limits stay within their configured range.
pub record IsTuned (g : Gateway) : Type 0 where
  pub cap_low : min 2 g.configured_max_concurrent ≤ g.current_max_concurrent
  pub cap_high : g.current_max_concurrent ≤ g.configured_max_concurrent
  pub interval_low : g.min_login_interval ≤ g.current_login_interval
  pub interval_high : g.current_login_interval ≤ max 5000 g.min_login_interval

-- `holding` is what the gateway counts, and never more than the configured limit.
pub record IsCounted (t : Traffic) : Type 0 where
  pub positive : 1 ≤ t.gateway.configured_max_concurrent
  pub tuned : IsTuned t.gateway
  pub counted : t.gateway.metrics.active_requests ≡ t.holding
  pub bounded : t.holding ≤ t.gateway.configured_max_concurrent

-- One lemma for each function, with the facts that the invariant needs.
record Keeps (g g' : Gateway) : Type 0 where
  configured : g'.configured_max_concurrent ≡ g.configured_max_concurrent
  cap : g'.current_max_concurrent ≡ g.current_max_concurrent
  least : g'.min_login_interval ≡ g.min_login_interval
  interval : g'.current_login_interval ≡ g.current_login_interval

Keeps-IsTuned : {g g' : Gateway} → Keeps g g' → IsTuned g → IsTuned g'
Keeps-IsTuned k t = record {
  cap_low = omega (arith, k.configured, k.cap, t.cap_low);
  cap_high = omega (arith, k.configured, k.cap, t.cap_high);
  interval_low = omega (arith, k.least, k.interval, t.interval_low);
  interval_high = omega (arith, k.least, k.interval, t.interval_high);
}

module _ (reserved : ℕ) (interactive is_login is_probe : Bool) (now : ℕ) (g : Gateway)
    {g' : Gateway} where
  admit_admitted :
      (probe : Bool)
      → admit reserved interactive is_login now is_probe g ≡ (g', admitted probe)
      → Keeps g g'
        × (g'.metrics.active_requests ≡ g.metrics.active_requests + 1)
        × (g.metrics.active_requests < max 1 g.current_max_concurrent)
  unfolding admit
  admit_admitted probe e = ground arith

  admit_waiting :
      (probe : Bool)
      → admit reserved interactive is_login now is_probe g ≡ (g', waiting probe)
      → Keeps g g' × (g'.metrics.active_requests ≡ g.metrics.active_requests)
  unfolding admit
  admit_waiting probe e = ground arith

  admit_rejected :
      admit reserved interactive is_login now is_probe g ≡ (g', rejected)
      → Keeps g g' × (g'.metrics.active_requests ≡ g.metrics.active_requests)
  unfolding admit
  admit_rejected e = ground arith

settle-IsTuned :
    (now wall : ℕ) (outcome : Outcome) (g : Gateway)
    → IsTuned g
    → IsTuned (settle now wall outcome g)
      × ((settle now wall outcome g).configured_max_concurrent ≡ g.configured_max_concurrent)
      × ((settle now wall outcome g).metrics.active_requests ≡ g.metrics.active_requests)
unfolding settle
settle-IsTuned now wall success g t = ground arith
settle-IsTuned now wall user_fault g t = ground arith
settle-IsTuned now wall foreign_fault g t = ground arith
settle-IsTuned now wall (portal_fault msg) g t = ground arith

leave_counted :
    (now wall : ℕ) (outcome : Outcome) (is_login is_probe : Bool) (g : Gateway)
    → IsTuned g
    → IsTuned (leave now wall outcome is_login is_probe g)
      × ((leave now wall outcome is_login is_probe g).configured_max_concurrent
          ≡ g.configured_max_concurrent)
      × ((leave now wall outcome is_login is_probe g).metrics.active_requests
          ≡ g.metrics.active_requests - 1)
unfolding leave
leave_counted now wall outcome is_login is_probe g t =
    let (t', conf, act) = settle-IsTuned now wall outcome g t in
    (
      record {
        cap_low = t'.cap_low;
        cap_high = t'.cap_high;
        interval_low = t'.interval_low;
        interval_high = t'.interval_high;
      },
      conf,
      omega (arith, act),
    )

-- A section that leaves the limits and the count alone.
unchanged :
    {g g' : Gateway} {h p : ℕ}
    → Keeps g g'
    → g'.metrics.active_requests ≡ g.metrics.active_requests
    → IsCounted (record { gateway = g; holding = h; pacing = p })
    → IsCounted (record { gateway = g'; holding = h; pacing = p })
unchanged k n c = record {
  positive = omega (arith, k.configured, c.positive);
  tuned = Keeps-IsTuned k c.tuned;
  counted = omega (arith, n, c.counted);
  bounded = omega (arith, k.configured, c.bounded);
}

-- Every section of every caller keeps the count of slots exact and within the configured limit, and
-- the adaptive limits within their range.
pub Section-IsCounted :
    (reserved : ℕ) {t u : Traffic} → Section reserved t u → IsCounted t → IsCounted u
unfolding begin_request release_slot reacquire_slot
Section-IsCounted reserved (enter i l p now {g = g} probe e) c =
    let (k, n, room) = admit_admitted reserved i l p now g probe e in
    record {
      positive = omega (arith, k.configured, c.positive);
      tuned = Keeps-IsTuned k c.tuned;
      counted = omega (arith, c.counted);
      bounded = omega (arith, k.configured, c.tuned.cap_high, c.counted, c.positive);
    }
Section-IsCounted reserved (wait i l p now {g = g} probe e) c =
    let (k, n) = admit_waiting reserved i l p now g probe e in unchanged k n c
Section-IsCounted reserved (refuse i l p now {g = g} e) c =
    let (k, n) = admit_rejected reserved i l p now g e in unchanged k n c
Section-IsCounted reserved (begin l now) c = ground arith
Section-IsCounted reserved pace c = ground arith
Section-IsCounted reserved (resume e) c = ground arith
Section-IsCounted reserved (exit now wall o l p {g = g}) c =
    let (t, conf, act) = leave_counted now wall o l p g c.tuned in
    record {
      positive = omega (arith, conf, c.positive);
      tuned = t;
      counted = omega (arith, act, c.counted);
      bounded = omega (arith, conf, c.bounded);
    }

init-IsCounted :
    (config : Config) (cap interval threshold recovery : Option ℕ) (now : ℕ)
    → 1 ≤ config.gateway_max_concurrent
    → IsCounted (record {
      gateway = init config cap interval threshold recovery now;
      holding = 0;
      pacing = 0;
    })
unfolding init
init-IsCounted config cap interval threshold recovery now h = ground arith

Reachable-IsCounted :
    (reserved : ℕ) {t u : Traffic} → Reachable reserved t u → IsCounted t → IsCounted u
Reachable-IsCounted reserved here c = c
Reachable-IsCounted reserved (next r s) c =
    Section-IsCounted reserved s (Reachable-IsCounted reserved r c)

-- From the start of the gateway, with a configured limit of at least one, under any interleaving of
-- callers that enter, wait, are refused, pace their logins and leave in any way: the requests
-- counted as active are the callers that hold a slot, they are never more than the configured
-- limit, and the adaptive limits stay within their range.
pub Reachable-init-IsCounted :
    (reserved : ℕ) (config : Config) (cap interval threshold recovery : Option ℕ) (now : ℕ)
    {t : Traffic}
    → 1 ≤ config.gateway_max_concurrent
    → Reachable reserved
        (record {
          gateway = init config cap interval threshold recovery now;
          holding = 0;
          pacing = 0;
        })
        t
    → IsCounted t
Reachable-init-IsCounted reserved config cap interval threshold recovery now h r =
    Reachable-IsCounted reserved r (init-IsCounted config cap interval threshold recovery now h)
