-- ===== src/AuthGate/Guarded.antt =====
-- No automatic login for a quarantined user, until new credentials are registered.
use mathlib.Core.Path.{subst}
use updatednitr.Prelude.{
  ℕ, ◌≡◌, ◌≢◌, ◌⊎◌, refl, inl, inr, ◌||◌, ◌++◌, any, List, if◌then◌else◌, Bool, true, false, none,
  some, [], ◌∷◌, arith, nat_beq_iff, ◌==◌, nat_eq, Dict, lookup, lookup-insert_self, lookup-insert,
  Option-cases, Bool-cases, contains-add, contains-discard,
}
use updatednitr.Gateway.State.{Gateway, quarantine, unquarantine, is_quarantined}
use updatednitr.Gateway.Login.{
  Portal, credentials_quarantined, login_through_gateway, login_through_gateway-guard,
}
use updatednitr.AuthGate.Calls.{
  Call, announcing, releasing, is_announcing, is_releasing, Run, started, Move, fails, announces,
  updates, releases, logs_in, Moves, here, next,
}
use updatednitr.AuthGate.{
  User, World, announce, commit_failure, commit_update, release_guard, on_credentials_updated,
  init_quarantine, quarantine_invalid, load_user_credentials, invalidate, revalidate,
}

-- A user whose row says that the credentials are invalid is in the gateway's guard, or about to be, and
-- nobody is about to take the user out of it.
abbrev pub IsGuarded : Run → Type 0
IsGuarded r =
    (id : ℕ) (u : User)
    → lookup id r.world.users ≡ some u
    → u.credentials_valid ≡ false
    → ((is_quarantined id r.world.gateway ≡ true) ⊎ (any (is_announcing id) r.calls ≡ true))
      × (any (is_releasing id) r.calls ≡ false)

any-middle :
    (p : Call → Bool) (before : List Call) (c : Call) (after : List Call)
    → any p (before ++ c ∷ after) ≡ (p c || any p (before ++ after))
any-middle p [] c after = ground arith
any-middle p (b ∷ before) c after = ground (arith, any-middle p before c after)

quarantine-keeps :
    (id v : ℕ) (g : Gateway) → is_quarantined v g ≡ true → is_quarantined v (quarantine id g) ≡ true
unfolding is_quarantined quarantine
quarantine-keeps id v g h = ground (arith, contains-add id v g.quarantined)

quarantine_self : (id : ℕ) (g : Gateway) → is_quarantined id (quarantine id g) ≡ true
unfolding is_quarantined quarantine
quarantine_self id g = ground (arith, contains-add id id g.quarantined)

quarantine_invalid-keeps :
    (users : Dict ℕ User) (v : ℕ) (g : Gateway)
    → is_quarantined v g ≡ true
    → is_quarantined v (quarantine_invalid users g) ≡ true
unfolding quarantine_invalid
quarantine_invalid-keeps [] v g h = h
quarantine_invalid-keeps ((id, u) ∷ users) v g h =
    quarantine_invalid-keeps users v _ (ground (arith, quarantine-keeps id v g))

quarantine_invalid-all :
    (users : Dict ℕ User) (id : ℕ) (u : User) (g : Gateway)
    → lookup id users ≡ some u
    → u.credentials_valid ≡ false
    → is_quarantined id (quarantine_invalid users g) ≡ true
unfolding quarantine_invalid lookup
quarantine_invalid-all [] id u g e v = cc
quarantine_invalid-all ((j, x) ∷ users) id u g e v = elim (Bool-cases (j == id)) [
  | inl same ↦
      quarantine_invalid-keeps users id _ (ground (arith, nat_beq_iff j id, quarantine_self id g))
  | inr other ↦ quarantine_invalid-all users id u _ (ground arith) v
]

module _ (id : ℕ) (u : User) (v : u.credentials_valid ≡ false) where
  abbrev Guards : Run → Type 0
  Guards r =
      lookup id r.world.users ≡ some u
      → ((is_quarantined id r.world.gateway ≡ true) ⊎ (any (is_announcing id) r.calls ≡ true))
        × (any (is_releasing id) r.calls ≡ false)

  fails_guarded :
      (user_id now cooldown : ℕ) (commits : Bool) (r : Run)
      → any (is_releasing user_id) r.calls ≡ false
      → Guards r
      → Guards (record {
        world = (commit_failure user_id now cooldown commits r.world).0;
        calls = started user_id (commit_failure user_id now cooldown commits r.world).1 r.calls;
      })
  unfolding commit_failure is_quarantined
  fails_guarded user_id now cooldown commits r n h e =
      elim (Option-cases (lookup user_id r.world.users)) [
        | inl none_there ↦ ground (arith, h)
        | inr (old, there) ↦ ground (
          arith,
          h,
          lookup-insert user_id id (invalidate now cooldown old) r.world.users,
          ours,
          nat_beq_iff user_id id,
        )
      ]
    where
      ours : (user_id == id) ≡ true → any (is_releasing id) r.calls ≡ false
      ours q = subst (λ i. any (is_releasing i) r.calls ≡ false) ((nat_beq_iff user_id id).0 q) n

  announces_guarded :
      (user_id telegram_id : ℕ) (sent : Bool) (before after : List Call) (w : World)
      → Guards (record { world = w; calls = before ++ announcing user_id telegram_id ∷ after })
      → Guards
          (record { world = announce user_id sent (some telegram_id) w; calls = before ++ after })
  unfolding announce quarantine is_quarantined
  announces_guarded user_id telegram_id sent before after w h e = ground (
    arith,
    h e,
    any-middle (is_announcing id) before (announcing user_id telegram_id) after,
    any-middle (is_releasing id) before (announcing user_id telegram_id) after,
    contains-add user_id id w.gateway.quarantined,
    nat_beq_iff user_id id,
  )

  updates_guarded :
      (user_id now : ℕ) (commits : Bool) (r : Run)
      → Guards r
      → Guards (record {
        world = commit_update user_id now commits r.world;
        calls = if commits then releasing user_id ∷ r.calls else r.calls;
      })
  unfolding commit_update
  updates_guarded user_id now commits r h e = elim (Option-cases (lookup user_id r.world.users)) [
    | inl none_there ↦ ground (arith, h, nat_beq_iff user_id id)
    | inr (old, there) ↦ ground (
      arith,
      h,
      lookup-insert user_id id (revalidate now old) r.world.users,
      nat_beq_iff user_id id,
    )
  ]

  releases_guarded :
      (user_id : ℕ) (before after : List Call) (w : World)
      → Guards (record { world = w; calls = before ++ releasing user_id ∷ after })
      → Guards (record { world = release_guard user_id w; calls = before ++ after })
  unfolding release_guard unquarantine is_quarantined
  releases_guarded user_id before after w h e = ground (
    arith,
    h e,
    any-middle (is_announcing id) before (releasing user_id) after,
    any-middle (is_releasing id) before (releasing user_id) after,
    contains-discard user_id id w.gateway.quarantined,
    nat_beq_iff user_id id,
  )

Move-IsGuarded : {r s : Run} → Move r s → IsGuarded r → IsGuarded s
Move-IsGuarded (fails user_id now cooldown commits r n) h id u e v =
    fails_guarded id u v user_id now cooldown commits r n (λ e. h id u e v) e
Move-IsGuarded (announces user_id telegram_id sent before after w) h id u e v =
    announces_guarded id u v user_id telegram_id sent before after w (λ e. h id u e v) e
Move-IsGuarded (updates user_id now commits r) h id u e v =
    updates_guarded id u v user_id now commits r (λ e. h id u e v) e
Move-IsGuarded (releases user_id before after w) h id u e v =
    releases_guarded id u v user_id before after w (λ e. h id u e v) e
Move-IsGuarded (logs_in user_id now answer r) h id u e v =
    ground
      (arith, (login_through_gateway-guard user_id id now answer r.world.gateway).1, h id u e v)

Moves-IsGuarded : {r s : Run} → Moves r s → IsGuarded r → IsGuarded s
Moves-IsGuarded here h = h
Moves-IsGuarded (next ms m) h = Move-IsGuarded m (Moves-IsGuarded ms h)

-- After a start that could read the table, whatever logins fail, succeed or are renewed, and however the
-- calls overlap: a user whose credentials are marked invalid is refused by load_user_credentials, and by
-- login_through_gateway unless the failure that marked them has not reached the gateway's guard yet. No
-- login of a user fails while a renewal of the same user is between its transaction and the guard.
pub quarantine_holds :
    (w : World) (r : Run) (user_id now : ℕ) (answer : Portal) (u : User)
    → Moves (record { world = init_quarantine true w; calls = [] }) r
    → lookup user_id r.world.users ≡ some u
    → u.credentials_valid ≡ false
    → (load_user_credentials user_id r.world ≡ none)
      × ((login_through_gateway user_id now answer r.world.gateway
            ≡ (r.world.gateway, credentials_quarantined))
          ⊎ (any (is_announcing user_id) r.calls ≡ true))
unfolding load_user_credentials init_quarantine
quarantine_holds w r user_id now answer u ms e v = (
  ground arith,
  (elim (Moves-IsGuarded ms begun user_id u e v).0 [
    | inr coming ↦ inr coming
    | inl held ↦ (elim (login_through_gateway-guard user_id user_id now answer r.world.gateway).0 [
      | inl (_, refused) ↦ inl refused
      | inr (free, _) ↦ absurd (ground (arith, free, held))
    ])
  ]),
)
  where
    begun : IsGuarded (record { world = init_quarantine true w; calls = [] })
    begun id v e i = (inl (quarantine_invalid-all w.users id v w.gateway e i), refl)

-- A renewal that commits lets the user back in: the credentials are handed out, with the version
-- one higher, the guard has let go, and no other user's row or guard is touched.
pub renewal :
    (user_id other now : ℕ) (u : User) (w : World)
    → lookup user_id w.users ≡ some u
    → user_id ≢ other
    → let w' = on_credentials_updated user_id now true w in
      (load_user_credentials user_id w' ≢ none)
      × (lookup user_id w'.users ≡ some (revalidate now u))
      × (is_quarantined user_id w'.gateway ≡ false)
      × (lookup other w'.users ≡ lookup other w.users)
      × (is_quarantined other w'.gateway ≡ is_quarantined other w.gateway)
unfolding on_credentials_updated commit_update release_guard load_user_credentials unquarantine
    is_quarantined
renewal user_id other now u w e n = ground (
  arith,
  lookup-insert user_id other (revalidate now u) w.users,
  lookup-insert_self user_id (revalidate now u) w.users,
  contains-discard user_id user_id w.gateway.quarantined,
  contains-discard user_id other w.gateway.quarantined,
  nat_beq_iff user_id other,
)
