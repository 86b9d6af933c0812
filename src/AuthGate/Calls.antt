-- ===== src/AuthGate/Calls.antt =====
-- The calls of app/nitris/auth_gate.py as they overlap, with the logins of app/nitris/gateway.py.
use updatednitr.Prelude.{
  ℕ, ◌≡◌, ◌++◌, any, List, Option, if◌then◌else◌, Bool, false, none, some, ◌∷◌, ◌==◌, nat_eq,
}
use updatednitr.Gateway.Login.{Portal, login_through_gateway}
use updatednitr.AuthGate.{World, announce, commit_failure, commit_update, release_guard}

-- A call between its transaction and what it does to the guard: a failure that has marked the row of a
-- user, with the chat that it returned, and a renewal that has committed.
pub data Call : Type 0 where
  announcing : (user_id telegram_id : ℕ) → Call
  releasing : (user_id : ℕ) → Call

abbrev pub is_announcing : ℕ → Call → Bool
is_announcing id (announcing user_id telegram_id) = user_id == id
is_announcing id (releasing user_id) = false

abbrev pub is_releasing : ℕ → Call → Bool
is_releasing id (announcing user_id telegram_id) = false
is_releasing id (releasing user_id) = user_id == id

-- The world with the calls that are under way.
pub record Run : Type 0 where
  pub world : World
  pub calls : List Call

abbrev pub started : ℕ → Option ℕ → List Call → List Call
started user_id none calls = calls
started user_id (some telegram_id) calls = announcing user_id telegram_id ∷ calls

-- What the gate does, with the logins of the gateway. Calls overlap, but no login of a user fails while a
-- renewal of that user is between its transaction and the guard.
pub data Move : Run → Run → Type 0 where
  fails :
      (user_id now cooldown : ℕ) (commits : Bool) (r : Run)
      → any (is_releasing user_id) r.calls ≡ false
      → Move r (record {
        world = (commit_failure user_id now cooldown commits r.world).0;
        calls = started user_id (commit_failure user_id now cooldown commits r.world).1 r.calls;
      })
  announces :
      (user_id telegram_id : ℕ) (sent : Bool) (before after : List Call) (w : World)
      → Move
          (record { world = w; calls = before ++ announcing user_id telegram_id ∷ after })
          (record { world = announce user_id sent (some telegram_id) w; calls = before ++ after })
  updates :
      (user_id now : ℕ) (commits : Bool) (r : Run)
      → Move r (record {
        world = commit_update user_id now commits r.world;
        calls = if commits then releasing user_id ∷ r.calls else r.calls;
      })
  releases :
      (user_id : ℕ) (before after : List Call) (w : World)
      → Move
          (record { world = w; calls = before ++ releasing user_id ∷ after })
          (record { world = release_guard user_id w; calls = before ++ after })
  logs_in :
      (user_id now : ℕ) (answer : Portal) (r : Run)
      → Move r (record r {
        world = record r.world {
          gateway = (login_through_gateway user_id now answer r.world.gateway).0;
        };
      })

pub data Moves (v : Run) : Run → Type 0 where
  here : Moves v v
  next : {w x : Run} → Moves v w → Move w x → Moves v x
