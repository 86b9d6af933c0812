-- ===== src/Gateway/Pacing.antt =====
-- The login token bucket of app/nitris/gateway.py: _refill_tokens_locked and _dispatch_tokens. A
-- token is `token_unit` parts, rounded down at a refill.
use updatednitr.Prelude.{
  ℕ, zero, suc, ◌+◌, ◌-◌, ◌*◌, ◌/◌, ◌≤◌, min, max, ◌≡◌, true, false, Option, none, some, List, [],
  ◌∷◌, arith, ltb, leb, if◌then◌else◌, length,
}
use updatednitr.Gateway.State.{Waiter, Gateway, token_unit}

unfoldable pub refill_tokens : ℕ → Gateway → Gateway
refill_tokens now g =
    let elapsed = now - g.login_last_refill in
    if ltb 0 elapsed
    then record g {
      login_tokens =
          min (g.login_burst * token_unit)
            (g.login_tokens + elapsed * token_unit / max g.current_login_interval 1);
      login_last_refill = now;
    }
    else g

-- The earliest interactive waiter, and the queue without it.
unfoldable pub pop_interactive : List Waiter → Option (Waiter × List Waiter)
pop_interactive [] = none
pop_interactive (w ∷ ws) =
    let later = pop_interactive ws in
    if w.interactive
    then some (w, ws)
    else (elim later [ none ↦ none | some (x, rest) ↦ some (x, w ∷ rest) ])

-- Else the head: `next(…, 0)` and `pop(idx)`.
unfoldable pub pop_next : Waiter → List Waiter → Waiter × List Waiter
pop_next w ws = elim (pop_interactive (w ∷ ws)) [ none ↦ (w, ws) | some r ↦ r ]

pub record Grants : Type 0 where
  pub tokens : ℕ
  pub queue : List Waiter
  pub granted : List Waiter

abbrev pub grant : Waiter → Grants → Grants
grant w r = record r { granted = w ∷ r.granted }

-- The loop of _dispatch_tokens. Each round takes a waiter off the queue: its length is the fuel.
unfoldable pub dispatch : ℕ → ℕ → List Waiter → Grants
dispatch zero tokens queue = record { tokens = tokens; queue = queue; granted = [] }
dispatch (suc fuel) tokens [] = record { tokens = tokens; queue = []; granted = [] }
dispatch (suc fuel) tokens (w ∷ ws) =
    let (x, rest) = pop_next w ws in
    let more = grant x (dispatch fuel (tokens - token_unit) rest) in
    if leb token_unit tokens then more else record { tokens = tokens; queue = w ∷ ws; granted = [] }

unfoldable pub dispatch_tokens : Gateway → Gateway × List Waiter
dispatch_tokens g =
    let r = dispatch (length g.pace_queue) g.login_tokens g.pace_queue in
    (record g { login_tokens = r.tokens; pace_queue = r.queue }, r.granted)

-- A refill never lifts the bucket above the burst.
pub refill_tokens-le_burst :
    (now : ℕ) (g : Gateway)
    → g.login_tokens ≤ g.login_burst * token_unit
    → (refill_tokens now g).login_tokens ≤ g.login_burst * token_unit
unfolding refill_tokens
refill_tokens-le_burst now g h = ground arith

abbrev pub IsInteractive : Waiter → Type 0
IsInteractive w = w.interactive ≡ true

abbrev pub IsBackground : Waiter → Type 0
IsBackground w = w.interactive ≡ false
