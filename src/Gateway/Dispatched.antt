-- ===== src/Gateway/Dispatched.antt =====
-- The whole loop of _dispatch_tokens of app/nitris/gateway.py.
use mathlib.Core.List.{Perm}
use mathlib.Core.List.Perm
use updatednitr.Prelude.{
  ℕ, zero, suc, ◌+◌, ◌-◌, ◌*◌, ◌≤◌, ◌<◌, ◌≡◌, refl, ◌⊎◌, inl, inr, Bool, true, false, List, [], ◌∷◌,
  ◌++◌, arith, leb, if◌then◌else◌, length, leb→le, All,
}
use updatednitr.Gateway.State.{Waiter, Gateway, token_unit}
use updatednitr.Gateway.Pacing.{
  pop_next, Grants, grant, dispatch, dispatch_tokens, IsInteractive, IsBackground,
}
use updatednitr.Gateway.Turns.{
  IsNext, pop_next-IsNext, IsNext-perm, IsNext-length, IsNext-background,
}

-- What a run of the loop leaves of `queue` and `tokens`.
record Dispatches (tokens : ℕ) (queue : List Waiter) (r : Grants) : Type 0 where
  spent : r.tokens + length r.granted * token_unit ≡ tokens
  drained : (r.tokens < token_unit) ⊎ (r.queue ≡ [])
  kept : Perm queue (r.granted ++ r.queue)
  priority : All IsBackground r.queue ⊎ All IsInteractive r.granted
  background : All IsBackground queue → All IsBackground r.queue

grant-Dispatches :
    (tokens : ℕ) (q : List Waiter) (x : Waiter) (rest : List Waiter) (r : Grants)
    → token_unit ≤ tokens
    → IsNext q x rest
    → Dispatches (tokens - token_unit) rest r
    → Dispatches tokens q (grant x r)
grant-Dispatches tokens q x rest r h n d = record {
  spent = omega (arith, d.spent);
  drained = d.drained;
  kept = Perm.trans (IsNext-perm q x rest n) (Perm.cons x d.kept);
  priority = elim n.first [
    | inl i ↦ elim d.priority [ inl b ↦ inl b | inr g ↦ inr (i, g) ]
    | inr (_, all_background) ↦ inl (d.background (IsNext-background q x rest n all_background))
  ];
  background = λ b. d.background (IsNext-background q x rest n b);
}

dispatch-Dispatches :
    (fuel tokens : ℕ) (q : List Waiter)
    → length q ≤ fuel
    → Dispatches tokens q (dispatch fuel tokens q)
unfolding dispatch
dispatch-Dispatches zero tokens [] h = record {
  spent = omega arith;
  drained = inr refl;
  kept = Perm.rfl;
  priority = inl tt;
  background = λ b. b;
}
dispatch-Dispatches zero tokens (w ∷ ws) h = absurd (omega arith)
dispatch-Dispatches (suc fuel) tokens [] h = record {
  spent = omega arith;
  drained = inr refl;
  kept = Perm.rfl;
  priority = inl tt;
  background = λ b. b;
}
dispatch-Dispatches (suc fuel) tokens (w ∷ ws) h = step (leb token_unit tokens) refl (
    dispatch-Dispatches fuel (tokens - token_unit) (pop_next w ws).1
      (omega (arith, IsNext-length (w ∷ ws) _ _ (pop_next-IsNext w ws))))
  where
    step :
        (b : Bool)
        → leb token_unit tokens ≡ b
        → Dispatches
            (tokens - token_unit)
            (pop_next w ws).1
            (dispatch fuel (tokens - token_unit) (pop_next w ws).1)
        → Dispatches tokens (w ∷ ws) (
            if b
            then grant (pop_next w ws).0 (dispatch fuel (tokens - token_unit) (pop_next w ws).1)
            else record { tokens = tokens; queue = w ∷ ws; granted = [] })
    step true e d = grant-Dispatches tokens (w ∷ ws) _ _ _ (leb→le _ _ e) (pop_next-IsNext w ws) d
    step false e d = record {
      spent = omega arith;
      drained = inl (ground arith);
      kept = Perm.rfl;
      priority = inr tt;
      background = λ b. b;
    }

-- What a dispatch of the tokens comes to: tokens spent, an end, nobody lost, and the priority.
pub record IsDispatched (tokens : ℕ) (queue : List Waiter) (r : Grants) : Type 0 where
  pub spent : r.tokens + length r.granted * token_unit ≡ tokens
  pub drained : (r.tokens < token_unit) ⊎ (r.queue ≡ [])
  pub kept : Perm queue (r.granted ++ r.queue)
  pub priority : All IsBackground r.queue ⊎ All IsInteractive r.granted

Dispatches-IsDispatched :
    {tokens : ℕ} {queue : List Waiter} {r : Grants}
    → Dispatches tokens queue r
    → IsDispatched tokens queue r
Dispatches-IsDispatched d = record {
  spent = d.spent;
  drained = d.drained;
  kept = d.kept;
  priority = d.priority;
}

-- _dispatch_tokens loses no waiter and no token: each waiter is granted or still queued, each grant
-- costs one token, and it stops only when less than a token or no waiter is left. A background
-- waiter is granted only when every waiter that stays is in the background, so an interactive
-- caller never waits behind one.
pub dispatch_tokens-IsDispatched :
    (g : Gateway)
    → IsDispatched g.login_tokens g.pace_queue (record {
      tokens = (dispatch_tokens g).0.login_tokens;
      queue = (dispatch_tokens g).0.pace_queue;
      granted = (dispatch_tokens g).1;
    })
unfolding dispatch_tokens
dispatch_tokens-IsDispatched g =
    Dispatches-IsDispatched (dispatch-Dispatches (length g.pace_queue) _ g.pace_queue (omega arith))
