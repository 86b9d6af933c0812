-- ===== src/AuthGate/Notices.antt =====
-- How often a user is told of the quarantine.
use updatednitr.Prelude.{
  ap, ℕ, ◌≡◌, refl, ◌≢◌, ◌∙◌, Bool, true, false, none, some, List, [], ◌∷◌, arith, if◌then◌else◌,
  nat_eq, lookup, lookup-insert_self,
}
use updatednitr.AuthGate.{
  User, World, commit_failure, on_login_failure, invalidate, load_user_credentials,
}

-- The failures of one user's logins: when, and whether the transaction commits and Telegram answers.
pub record Failure : Type 0 where
  pub now : ℕ
  pub cooldown : ℕ
  pub commits : Bool
  pub sent : Bool

abbrev pub failures : ℕ → List Failure → World → World
failures user_id [] w = w
failures user_id (f ∷ fs) w =
    failures user_id fs (on_login_failure user_id f.now f.cooldown f.commits f.sent w)

-- A user that is invalid already, or is not there: a failure changes nothing at all.
abbrev IsInvalid : ℕ → World → Type 0
IsInvalid user_id w = load_user_credentials user_id w ≡ none

on_login_failure_again :
    (user_id now cooldown : ℕ) (commits sent : Bool) (w : World)
    → IsInvalid user_id w
    → on_login_failure user_id now cooldown commits sent w ≡ w
unfolding on_login_failure commit_failure load_user_credentials
on_login_failure_again user_id now cooldown commits sent w h = ground arith

failures_again :
    (user_id : ℕ) (fs : List Failure) (w : World) → IsInvalid user_id w → failures user_id fs w ≡ w
failures_again user_id [] w h = refl
failures_again user_id (f ∷ fs) w h =
    ap (failures user_id fs) (on_login_failure_again user_id f.now f.cooldown f.commits f.sent w h)
    ∙ failures_again user_id fs w h

-- The notices that a run of failures of a valid user adds: one, for the first that commits, if
-- Telegram takes it.
abbrev pub told : ℕ → List Failure → List ℕ → List ℕ
told chat [] notices = notices
told chat (f ∷ fs) notices =
    let later = told chat fs notices in
    if f.commits then (if f.sent then chat ∷ notices else notices) else later

on_login_failure_commits :
    (user_id now cooldown : ℕ) (sent : Bool) (u : User) (w : World)
    → lookup user_id w.users ≡ some u
    → u.credentials_valid ≡ true
    → u.telegram_id ≢ 0
    → w.bot ≡ true
    → let w' = on_login_failure user_id now cooldown true sent w in
      IsInvalid user_id w'
      × (w'.notices ≡ (if sent then u.telegram_id ∷ w.notices else w.notices))
      × (lookup user_id w'.users ≡ some (invalidate now cooldown u))
unfolding on_login_failure commit_failure load_user_credentials
on_login_failure_commits user_id now cooldown sent u w e v t b =
    ground (arith, lookup-insert_self user_id (invalidate now cooldown u) w.users)

on_login_failure_rolls_back :
    (user_id now cooldown : ℕ) (sent : Bool) (w : World)
    → on_login_failure user_id now cooldown false sent w ≡ w
unfolding on_login_failure commit_failure
on_login_failure_rolls_back user_id now cooldown sent w = refl

-- However many logins of a valid user fail, in whatever order their transactions come, the user gets
-- at most one notice: the first failure that commits sends it if Telegram takes it, and every later
-- failure changes nothing.
pub failures_notify_once :
    (user_id : ℕ) (fs : List Failure) (u : User) (w : World)
    → lookup user_id w.users ≡ some u
    → u.credentials_valid ≡ true
    → u.telegram_id ≢ 0
    → w.bot ≡ true
    → (failures user_id fs w).notices ≡ told u.telegram_id fs w.notices
failures_notify_once user_id [] u w e v t b = refl
failures_notify_once user_id (f ∷ fs) u w e v t b =
    go f.commits refl (failures_notify_once user_id fs u w e v t b)
  where
    go :
        (c : Bool)
        → f.commits ≡ c
        → (failures user_id fs w).notices ≡ told u.telegram_id fs w.notices
        → (failures user_id fs (on_login_failure user_id f.now f.cooldown c f.sent w)).notices ≡ (
            if c
            then (if f.sent then u.telegram_id ∷ w.notices else w.notices)
            else told u.telegram_id fs w.notices)
    go true _ _ =
        let (invalid, sent, _) =
          on_login_failure_commits user_id f.now f.cooldown f.sent u w e v t b in
        rw (failures_again user_id fs _ invalid) sent
    go false _ ih = rw (on_login_failure_rolls_back user_id f.now f.cooldown f.sent w) ih
