-- ===== src/Gateway/Login.antt =====
-- _do_login, login_through_gateway and verify_credentials of app/nitris/gateway.py.
use updatednitr.Prelude.{
  ℕ, ◌+◌, ◌-◌, ◌≡◌, ◌≢◌, ◌⊎◌, refl, Bool, true, false, none, some, arith, if◌then◌else◌, ◌==◌,
  nat_eq, contains, contains-add, ◌≤◌, ◌<◌, Bool-cases, inl, inr,
}
use updatednitr.Gateway.State.{Gateway, quarantine, is_quarantined}
use updatednitr.Gateway.Admission.{release_slot, reacquire_slot}

-- How `client.login` ends.
pub data Portal : Type 0 where
  accepted : Portal
  login_error : Portal  -- the portal refused the credentials
  login_unavailable : Portal  -- the portal did not answer properly
  other_error : Portal

-- How a login path ends for its caller. `no_slot`: it still waits for a slot.
pub data LoginResult : Type 0 where
  no_slot credentials_quarantined : LoginResult
  portal : Portal → LoginResult

unfoldable pub paced_wait : ℕ → Gateway → Gateway
paced_wait now g = record g { metrics = record g.metrics { last_login_time = now } }

unfoldable pub count_login : Gateway → Gateway
count_login g = record g {
  metrics = record g.metrics {
    total_logins = g.metrics.total_logins + 1;
    active_logins = g.metrics.active_logins + 1;
  };
}

unfoldable pub end_login : Gateway → Gateway
end_login g = record g {
  metrics = record g.metrics { active_logins = g.metrics.active_logins - 1 };
}

-- With nobody else at the gateway between its sections. The token is granted at `now`.
unfoldable pub do_login : ℕ → Portal → Gateway → Gateway × LoginResult
unfolding paced_wait count_login end_login release_slot reacquire_slot
do_login now answer g =
    let paced = paced_wait now (release_slot g) in
    elim (reacquire_slot paced) [
      | none ↦ (paced, no_slot)
      | some g' ↦ (end_login (count_login g'), portal answer)
    ]

-- `except LoginError: self._quarantined.add(user_id); raise`
unfoldable pub guard_login : ℕ → Gateway × LoginResult → Gateway × LoginResult
guard_login user_id (g, portal login_error) = (quarantine user_id g, portal login_error)
guard_login user_id (g, portal accepted) = (g, portal accepted)
guard_login user_id (g, portal login_unavailable) = (g, portal login_unavailable)
guard_login user_id (g, portal other_error) = (g, portal other_error)
guard_login user_id (g, no_slot) = (g, no_slot)
guard_login user_id (g, credentials_quarantined) = (g, credentials_quarantined)

unfoldable pub login_through_gateway : ℕ → ℕ → Portal → Gateway → Gateway × LoginResult
unfolding do_login guard_login quarantine
login_through_gateway user_id now answer g =
    if contains user_id g.quarantined
    then (g, credentials_quarantined)
    else guard_login user_id (do_login now answer g)

unfoldable pub verify_credentials : ℕ → Portal → Gateway → Gateway × LoginResult
unfolding do_login
verify_credentials now answer g = do_login now answer g

abbrev pub is_login_error : LoginResult → Bool
is_login_error (portal login_error) = true
is_login_error _ = false

quarantined-do_login :
    (now : ℕ) (answer : Portal) (g : Gateway)
    → (do_login now answer g).0.quarantined ≡ g.quarantined
unfolding do_login
quarantined-do_login now answer g = ground arith

guard_login_both :
    (user_id v : ℕ) (g : Gateway) (r : LoginResult)
    → is_quarantined v (guard_login user_id (g, r)).0 ≡ (
        if is_login_error (guard_login user_id (g, r)).1
        then (if user_id == v then true else is_quarantined v g)
        else is_quarantined v g)
unfolding guard_login is_quarantined quarantine
guard_login_both user_id v g (portal login_error) = contains-add user_id v g.quarantined
guard_login_both user_id v g (portal accepted) = refl
guard_login_both user_id v g (portal login_unavailable) = refl
guard_login_both user_id v g (portal other_error) = refl
guard_login_both user_id v g no_slot = refl
guard_login_both user_id v g credentials_quarantined = refl

guard_login_after :
    (user_id v : ℕ) (g : Gateway) (p : Gateway × LoginResult)
    → p.0.quarantined ≡ g.quarantined
    → is_quarantined v (guard_login user_id p).0 ≡ (
        if is_login_error (guard_login user_id p).1
        then (if user_id == v then true else is_quarantined v g)
        else is_quarantined v g)
unfolding guard_login is_quarantined quarantine
guard_login_after user_id v g (g', r) e = rw (← e) (guard_login_both user_id v g' r)

asked :
    (user_id now : ℕ) (answer : Portal) (g : Gateway)
    → (guard_login user_id (do_login now answer g)).1 ≢ credentials_quarantined
unfolding guard_login do_login
asked user_id now accepted g = ground arith
asked user_id now login_error g = ground arith
asked user_id now login_unavailable g = ground arith
asked user_id now other_error g = ground arith

-- A login is refused as quarantined exactly when the user is quarantined, and then changes nothing. Any
-- login path leaves the guard of every user as it was, but that a LoginError adds the user itself;
-- an unreachable portal adds nobody.
pub login_through_gateway-guard :
    (user_id v now : ℕ) (answer : Portal) (g : Gateway)
    → let r = login_through_gateway user_id now answer g in
      (((is_quarantined user_id g ≡ true) × (r ≡ (g, credentials_quarantined)))
        ⊎ ((is_quarantined user_id g ≡ false) × (r.1 ≢ credentials_quarantined)))
      × (is_quarantined v r.0 ≡ (
          if is_login_error r.1
          then (if user_id == v then true else is_quarantined v g)
          else is_quarantined v g))
unfolding login_through_gateway is_quarantined
login_through_gateway-guard user_id v now answer g =
    elim (Bool-cases (contains user_id g.quarantined)) [
      | inl e ↦ rw e (inl (refl, refl), refl)
      | inr e ↦ rw e (
        inr (refl, asked user_id now answer g),
        guard_login_after user_id v g (do_login now answer g) (quarantined-do_login now answer g),
      )
    ]

-- A caller that holds a slot, at a gateway within its limit, gets through a login with one token:
-- the portal's answer comes back, the count of logins grows by one, and slots and logins under way
-- are as before.
pub do_login-slots :
    (now : ℕ) (answer : Portal) (g : Gateway)
    → 0 < g.metrics.active_requests
    → g.metrics.active_requests ≤ g.current_max_concurrent
    → let r = do_login now answer g in
      (r.1 ≡ portal answer)
      × (r.0.metrics.active_requests ≡ g.metrics.active_requests)
      × (r.0.metrics.active_logins ≡ g.metrics.active_logins)
      × (r.0.metrics.total_logins ≡ g.metrics.total_logins + 1)
      × (r.0.quarantined ≡ g.quarantined)
unfolding do_login
do_login-slots now answer g h k = ground arith
