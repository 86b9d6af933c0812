-- ===== src/Snapshots/History.antt =====
-- The table of snapshots of app/services/snapshot_service.py stands for the latest result of each user
-- and module.
use mathlib.Core.Path.{subst}
use updatednitr.Prelude.{
  ℕ, ◌≡◌, ◌≢◌, refl, sym, ap, ◌∙◌, Bool, true, false, ◌&&◌, Option, none, some, List, [], ◌∷◌,
  arith, if◌then◌else◌, ◌==◌, nat_eq, string_eq, text_eq, text_beq_iff, Text, String, All,
  Option-cases, inl, inr, ◌⊎◌, beq_refl,
}
use updatednitr.Snapshots.Store.{
  AttendanceResult, Snapshot, Tables, Saved, create, create_snapshot_if_changed,
  get_latest_snapshot,
}

-- The abstract view: the latest result of a user and a module.
abbrev pub latest : ℕ → String → Tables → Option (AttendanceResult)
latest user_id module_name t = elim (get_latest_snapshot user_id module_name t.snapshots) [
  | none ↦ none
  | some s ↦ some s.snapshot_json
]

-- What holds of every snapshot holds of the latest.
latest-All {κ} :
    (P : Snapshot → Type κ) (user_id : ℕ) (module_name : String) (ss : List Snapshot) (s : Snapshot)
    → All P ss
    → get_latest_snapshot user_id module_name ss ≡ some s
    → P s
unfolding get_latest_snapshot
latest-All P user_id module_name [] s h e = ground (arith, e)
latest-All P user_id module_name (x ∷ ss) s h e =
    go (x.user_id == user_id && x.module_name == module_name) e
      (latest-All P user_id module_name ss s h.1)
  where
    go :
        (b : Bool)
        → (if b then some x else get_latest_snapshot user_id module_name ss) ≡ some s
        → (get_latest_snapshot user_id module_name ss ≡ some s → P s)
        → P s
    go true e ih = let same : x ≡ s = ground (arith, e) in subst P same h.0
    go false e ih = ih e

self_key : (u : ℕ) (m : String) → (u == u && m == m) ≡ true
self_key u m = rw (beq_refl u, beq_refl m) refl

module _ (hash : AttendanceResult → Text) where
  -- Each stored hash is that of its content.
  abbrev pub IsHashed : List Snapshot → Type 0
  IsHashed = All (λ s. s.snapshot_hash ≡ hash s.snapshot_json)

  -- No snapshot of the list has the hash of this result by accident.
  abbrev pub IsApart : AttendanceResult → List Snapshot → Type 0
  IsApart attendance_result =
      All (λ s.
        (s.snapshot_json ≡ attendance_result) ⊎ (hash s.snapshot_json ≢ hash attendance_result))

  apart-same :
      (attendance_result : AttendanceResult) (s : Snapshot)
      → (s.snapshot_json ≡ attendance_result) ⊎ (hash s.snapshot_json ≢ hash attendance_result)
      → hash s.snapshot_json ≡ hash attendance_result
      → s.snapshot_json ≡ attendance_result
  apart-same attendance_result s (inl e) h = e
  apart-same attendance_result s (inr n) h = absurd (n h)

  latest-create :
      (user_id : ℕ) (module_name : String) (attendance_result : AttendanceResult) (baseline : Bool)
      (previous : Option Snapshot) (t : Tables)
      → latest user_id module_name
          (create hash user_id module_name attendance_result baseline previous t).0
        ≡ some attendance_result
  unfolding get_latest_snapshot
  latest-create user_id module_name attendance_result baseline previous t =
      rw (self_key user_id module_name, latest) refl

  latest-create_other :
      (user_id other : ℕ) (module_name name : String) (attendance_result : AttendanceResult)
      (baseline : Bool) (previous : Option Snapshot) (t : Tables)
      → (user_id == other && module_name == name) ≡ false
      → latest other name (create hash user_id module_name attendance_result baseline previous t).0
        ≡ latest other name t
  unfolding get_latest_snapshot
  latest-create_other user_id other module_name name attendance_result baseline previous t e =
      rw (e, latest) refl

  find_latest :
      (user_id : ℕ) (module_name : String) (attendance_result : AttendanceResult) (t : Tables)
      → latest user_id module_name t ≡ some attendance_result
      → (s : Snapshot) × (get_latest_snapshot user_id module_name t.snapshots ≡ some s)
        × (s.snapshot_json ≡ attendance_result)
  find_latest user_id module_name attendance_result t h =
      elim (Option-cases (get_latest_snapshot user_id module_name t.snapshots)) [
        | inl e ↦ ground (arith, e, h)
        | inr (s, e) ↦ (s, e, ground (arith, e, h))
      ]

  create-known :
      (user_id : ℕ) (module_name : String) (attendance_result : AttendanceResult) (baseline : Bool)
      (s : Snapshot) (t : Tables)
      → get_latest_snapshot user_id module_name t.snapshots ≡ some s
      → s.snapshot_hash ≡ hash attendance_result
      → create_snapshot_if_changed hash user_id module_name attendance_result baseline t
        ≡ (t, record { changed = false; previous = some s; current = s })
  unfolding create_snapshot_if_changed
  create-known user_id module_name attendance_result baseline s t e same =
      rw (e, create_snapshot_if_changed) (rw (same, beq_refl (hash attendance_result)) refl)

  -- What a call has to do to the latest result.
  pub record IsRecorded (user_id : ℕ) (module_name : String) (attendance_result : AttendanceResult)
      (t t' : Tables) : Type 0 where
    pub here : latest user_id module_name t' ≡ some attendance_result
    pub elsewhere :
        (other : ℕ) (name : String)
        → (user_id == other && module_name == name) ≡ false
        → latest other name t' ≡ latest other name t
    pub hashed : IsHashed t'.snapshots

  IsRecorded-same :
      (user_id : ℕ) (module_name : String) (attendance_result : AttendanceResult) (s : Snapshot)
      (t : Tables)
      → IsApart attendance_result t.snapshots
      → IsHashed t.snapshots
      → get_latest_snapshot user_id module_name t.snapshots ≡ some s
      → s.snapshot_hash ≡ hash attendance_result
      → IsRecorded user_id module_name attendance_result t t
  IsRecorded-same user_id module_name attendance_result s t apart h e same = record {
    here =
        rw (e, latest)
          (ap some (
            apart-same attendance_result s
              (latest-All
                (λ s.
                  (s.snapshot_json ≡ attendance_result)
                  ⊎ (hash s.snapshot_json ≢ hash attendance_result))
                user_id module_name t.snapshots s apart e)
              (sym (
                  latest-All (λ s. s.snapshot_hash ≡ hash s.snapshot_json) user_id module_name
                    t.snapshots s h e)
                ∙ same)));
    elsewhere = λ other name q. refl;
    hashed = h;
  }

  IsRecorded-create :
      (user_id : ℕ) (module_name : String) (attendance_result : AttendanceResult) (baseline : Bool)
      (previous : Option Snapshot) (t : Tables)
      → IsHashed t.snapshots
      → IsRecorded user_id module_name attendance_result t
          (create hash user_id module_name attendance_result baseline previous t).0
  IsRecorded-create user_id module_name attendance_result baseline previous t h = record {
    here = latest-create user_id module_name attendance_result baseline previous t;
    elsewhere = λ other name q.
        latest-create_other user_id other module_name name attendance_result baseline previous t q;
    hashed = (refl, h);
  }

  -- The table implements the map from each user and module to the latest result, the student's data with
  -- the records: after a call this is the result of the call, and those of the other users and modules
  -- are as they were. The hashes in the table are those of its results, and none is that of the call's by
  -- accident.
  pub create_snapshot_if_changed-IsRecorded :
      (user_id : ℕ) (module_name : String) (attendance_result : AttendanceResult) (baseline : Bool)
      (t : Tables)
      → IsApart attendance_result t.snapshots
      → IsHashed t.snapshots
      → IsRecorded user_id module_name attendance_result t
          (create_snapshot_if_changed hash user_id module_name attendance_result baseline t).0
  unfolding create_snapshot_if_changed
  create_snapshot_if_changed-IsRecorded user_id module_name attendance_result baseline t apart h =
      elim (Option-cases (get_latest_snapshot user_id module_name t.snapshots)) [
        | inl e ↦
            rw (e, create_snapshot_if_changed)
              (IsRecorded-create user_id module_name attendance_result baseline none t h)
        | inr (s, e) ↦
            rw (e, create_snapshot_if_changed)
              (go s e (s.snapshot_hash == hash attendance_result) refl)
      ]
    where
      go :
          (s : Snapshot)
          → get_latest_snapshot user_id module_name t.snapshots ≡ some s
          → (b : Bool) → (s.snapshot_hash == hash attendance_result) ≡ b
          → IsRecorded user_id module_name attendance_result t
              (if b
                then (t, record { changed = false; previous = some s; current = s })
                else create hash user_id module_name attendance_result baseline (some s) t).0
      go s e true q =
          IsRecorded-same user_id module_name attendance_result s t apart h e
            ((text_beq_iff s.snapshot_hash (hash attendance_result)).0 q)
      go s e false q = IsRecorded-create user_id module_name attendance_result baseline (some s) t h

  -- A second call with the same result, by whichever sync, finds nothing changed and leaves the tables as
  -- the first left them: no snapshot and no event is made twice.
  pub second_sync_silent :
      (user_id : ℕ) (module_name : String) (attendance_result : AttendanceResult)
      (baseline again : Bool) (t : Tables)
      → IsApart attendance_result t.snapshots
      → IsHashed t.snapshots
      → let t' =
          (create_snapshot_if_changed hash user_id module_name attendance_result baseline t).0 in
        let (t'', saved) =
          create_snapshot_if_changed hash user_id module_name attendance_result again t' in
        (t'' ≡ t') × (saved.changed ≡ false)
  second_sync_silent user_id module_name attendance_result baseline again t apart h =
      let t' =
        (create_snapshot_if_changed hash user_id module_name attendance_result baseline t).0 in
      let r =
        create_snapshot_if_changed-IsRecorded user_id module_name attendance_result baseline t apart
          h in
      let (s, e, same) = find_latest user_id module_name attendance_result t' r.here in
      let k = create-known user_id module_name attendance_result again s t' e (
        latest-All (λ s. s.snapshot_hash ≡ hash s.snapshot_json) user_id module_name t'.snapshots s
          r.hashed e
        ∙ ap hash same) in
      (ap (λ (p : Tables × Saved). p.0) k, ap (λ (p : Tables × Saved). p.1.changed) k)
