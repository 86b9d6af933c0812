-- ===== src/AuthGate.antt =====
-- app/nitris/auth_gate.py: the quarantine of credentials, in the table `users`, in the gateway's
-- guard, and in the notices. A call takes the time of its transaction and whether the transaction
-- commits (`except Exception` swallows one that does not). Calls lets the
-- calls overlap; Notices and Guarded prove.
pub mod Calls
pub mod Notices
pub mod Guarded
use updatednitr.Prelude.{
  ℕ, ◌+◌, ◌≡◌, String, Bool, true, false, ◌&&◌, ◌||◌, Option, none, some, List, [], ◌∷◌, map,
  nat_beq, if◌then◌else◌, ◌==◌, nat_eq, string_eq, Dict, lookup, insert,
}
use updatednitr.Gateway.State.{Gateway, quarantine, unquarantine}

-- The columns of `users` that the gate reads or writes.
pub record User : Type 0 where
  pub roll_number : String
  pub encrypted_password : String
  pub telegram_id : ℕ
  pub credentials_valid : Bool
  pub credentials_version : ℕ
  pub credentials_invalid_at : Option ℕ
  pub qp_fail_count : ℕ
  pub qp_cooldown_until : Option ℕ
  pub updated_at : ℕ

-- A row of `module_sync_schedule`.
pub record Schedule : Type 0 where
  pub user_id : ℕ
  pub module_name : String
  pub last_status : String
  pub consecutive_failures : ℕ
  pub last_error : Option String
  pub scheduler_claimed_at : Option ℕ
  pub next_sync_at : ℕ
  pub updated_at : ℕ

pub record World : Type 0 where
  pub users : Dict ℕ User
  pub schedules : List Schedule
  pub gateway : Gateway
  pub bot : Bool  -- init_auth_gate has been called
  pub notices : List ℕ  -- the chats that QUARANTINE_NOTICE went to, the last one first

unfoldable pub init_auth_gate : World → World
init_auth_gate w = record w { bot = true }

pub record UserCreds : Type 0 where
  pub user_id : ℕ
  pub roll_number : String
  pub encrypted_password : String
  pub telegram_id : ℕ

-- `none` is CredentialsQuarantinedError.
unfoldable pub load_user_credentials : ℕ → World → Option UserCreds
load_user_credentials user_id w = elim (lookup user_id w.users) [
  | none ↦ none
  | some u ↦
      if u.credentials_valid
      then some (record {
        user_id = user_id;
        roll_number = u.roll_number;
        encrypted_password = u.encrypted_password;
        telegram_id = u.telegram_id;
      })
      else none
]

-- The SET of on_login_failure's UPDATE.
abbrev pub invalidate : (now cooldown : ℕ) → User → User
invalidate now cooldown u = record u {
  credentials_valid = false;
  credentials_invalid_at = some now;
  qp_fail_count = u.qp_fail_count + 1;
  qp_cooldown_until = some (now + cooldown);
  updated_at = now;
}

-- UPDATE users … WHERE id = :user_id AND credentials_valid = TRUE RETURNING telegram_id
unfoldable pub update_invalid : (user_id now cooldown : ℕ) → Dict ℕ User → Dict ℕ User × Option ℕ
update_invalid user_id now cooldown users = elim (lookup user_id users) [
  | none ↦ (users, none)
  | some u ↦
      if u.credentials_valid
      then (insert user_id (invalidate now cooldown u) users, some u.telegram_id)
      else (users, none)
]

-- What follows the transaction. `sent` is whether Telegram takes the message.
unfoldable pub announce : (user_id : ℕ) (sent : Bool) → Option ℕ → World → World
announce user_id sent none w = w
announce user_id sent (some telegram_id) w = record w {
  gateway = quarantine user_id w.gateway;
  notices =
      if (if nat_beq telegram_id 0 then false else w.bot) && sent
      then telegram_id ∷ w.notices
      else w.notices;
}

-- The transaction of on_login_failure, with the row that it returns.
unfoldable pub commit_failure :
    (user_id now cooldown : ℕ) (commits : Bool) → World → World × Option ℕ
unfolding update_invalid
commit_failure user_id now cooldown commits w =
    let (users, row) = update_invalid user_id now cooldown w.users in
    if commits then (record w { users = users }, row) else (w, none)

-- A call that nothing interrupts; Calls lets other calls run between its two steps.
unfoldable pub on_login_failure : (user_id now cooldown : ℕ) (commits sent : Bool) → World → World
unfolding commit_failure announce
on_login_failure user_id now cooldown commits sent w =
    let (w', row) = commit_failure user_id now cooldown commits w in announce user_id sent row w'

-- The SET of on_credentials_updated's first UPDATE.
abbrev pub revalidate : ℕ → User → User
revalidate now u = record u {
  credentials_valid = true;
  credentials_version = u.credentials_version + 1;
  credentials_invalid_at = none;
  qp_fail_count = 0;
  qp_cooldown_until = none;
  updated_at = now;
}

unfoldable pub update_valid : (user_id now : ℕ) → Dict ℕ User → Dict ℕ User
update_valid user_id now users = elim (lookup user_id users) [
  | none ↦ users
  | some u ↦ insert user_id (revalidate now u) users
]

-- Its second UPDATE, on one row.
unfoldable pub is_disabled_sync : ℕ → Schedule → Bool
is_disabled_sync user_id s =
    (s.user_id == user_id)
    && ((s.module_name == "attendance") || (s.module_name == "inbox"))
    && (s.last_status == "disabled")

unfoldable pub rearm : (user_id now : ℕ) → Schedule → Schedule
rearm user_id now s =
    if is_disabled_sync user_id s
    then record s {
      last_status = "pending";
      consecutive_failures = 0;
      last_error = none;
      scheduler_claimed_at = none;
      next_sync_at = now;
      updated_at = now;
    }
    else s

-- The transaction of on_credentials_updated, and what follows it.
unfoldable pub commit_update : (user_id now : ℕ) (commits : Bool) → World → World
unfolding update_valid
commit_update user_id now commits w =
    if commits
    then record w {
      users = update_valid user_id now w.users;
      schedules = map (rearm user_id now) w.schedules;
    }
    else w

unfoldable pub release_guard : ℕ → World → World
release_guard user_id w = record w { gateway = unquarantine user_id w.gateway }

-- A call that nothing interrupts.
unfoldable pub on_credentials_updated : (user_id now : ℕ) (commits : Bool) → World → World
unfolding commit_update release_guard
on_credentials_updated user_id now commits w =
    let w' = commit_update user_id now commits w in if commits then release_guard user_id w' else w'

-- SELECT id FROM users WHERE credentials_valid = FALSE, and the loop over it.
unfoldable pub quarantine_invalid : Dict ℕ User → Gateway → Gateway
quarantine_invalid [] g = g
quarantine_invalid ((id, u) ∷ users) g =
    quarantine_invalid users (if u.credentials_valid then g else quarantine id g)

unfoldable pub init_quarantine : (reads : Bool) → World → World
unfolding quarantine_invalid
init_quarantine reads w =
    if reads then record w { gateway = quarantine_invalid w.users w.gateway } else w
