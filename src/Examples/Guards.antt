-- ===== src/Examples/Guards.antt =====
-- Runs of the quarantine of credentials (app/nitris/auth_gate.py).
use updatednitr.Prelude.{
  ◌≡◌, refl, true, false, none, List, [], ◌∷◌, ◌⊎◌, some, any, lookup, insert, nat_eq,
}
use updatednitr.Gateway.State.{Config, init}
use updatednitr.Gateway.Login.{accepted, login_through_gateway, credentials_quarantined}
use updatednitr.AuthGate.{
  User, World, load_user_credentials, init_quarantine, commit_failure, update_invalid, announce,
  invalidate,
}
use updatednitr.AuthGate.Notices.{Failure}
use updatednitr.AuthGate.Calls.{Run, Moves, here, next, fails, announces, announcing, is_announcing}
use updatednitr.AuthGate.Guarded.{quarantine_holds}

abbrev config : Config
config = record {
  gateway_max_concurrent = 4;
  gateway_min_login_interval = 1000;
  gateway_circuit_error_threshold = 2;
  gateway_circuit_recovery = 60000;
  login_burst = 3;
}

abbrev student : User
student = record {
  roll_number = "123CS0001";
  encrypted_password = "secret";
  telegram_id = 77;
  credentials_valid = true;
  credentials_version = 1;
  credentials_invalid_at = none;
  qp_fail_count = 0;
  qp_cooldown_until = none;
  updated_at = 0;
}

abbrev refused : User
refused = record student { credentials_valid = false }

abbrev world : World
world = record {
  users = (1, student) ∷ (2, refused) ∷ [];
  schedules = [];
  gateway = init config none none none none 0;
  bot = true;
  notices = [];
}

abbrev two_failures : List Failure
two_failures =
    record { now = 10; cooldown = 60; commits = true; sent = true }
    ∷ record { now = 11; cooldown = 60; commits = true; sent = true }
    ∷ []

abbrev start : Run
unfolding init_quarantine
start = record { world = init_quarantine true world; calls = [] }

-- The first user's login fails, and the failure has marked the row.
abbrev marked : Run
unfolding init_quarantine commit_failure
marked = record {
  world = (commit_failure 1 10 600 true start.world).0;
  calls = announcing 1 77 ∷ [];
}

abbrev guarded : Run
unfolding init_quarantine commit_failure announce
guarded = record { world = announce 1 true (some 77) marked.world; calls = [] }

to_guarded : Moves start guarded
unfolding lookup init_quarantine commit_failure update_invalid announce
to_guarded =
    next (next here (fails 1 10 600 true start refl)) (announces 1 77 true [] [] marked.world)

first_row : lookup 1 guarded.world.users ≡ some (invalidate 10 600 student)
unfolding lookup insert init_quarantine commit_failure update_invalid announce
first_row = refl

quarantine_holds_example :
    (load_user_credentials 1 guarded.world ≡ none)
    × ((login_through_gateway 1 50 accepted guarded.world.gateway
          ≡ (guarded.world.gateway, credentials_quarantined))
        ⊎ (any (is_announcing 1) guarded.calls ≡ true))
unfolding start
quarantine_holds_example =
    quarantine_holds world guarded 1 50 accepted (invalidate 10 600 student) to_guarded first_row
      refl
