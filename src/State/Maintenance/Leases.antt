-- ===== src/State/Maintenance/Leases.antt =====
-- What the leases promise: one holder at a time until the deadline, and no new Job while execution
-- is paused.
use mira_bridge.Base.{
  if_true, ℕ, ◌+◌, ◌≡◌, ◌≢◌, refl, String, Bool, true, false, Option, none, some, ◌==◌, ◌&&◌, arith,
  eq_iff, eq_refl, if◌then◌else◌, ltb, not, ap, ◌∙◌,
}
use mira_bridge.Base.Json.{StoredJson, lookup_field, property}
use mira_bridge.Base.Table
use mira_bridge.State.Rows.{Database, Time, ExecutionMaintenanceLease}
use mira_bridge.State.Maintenance.{
  maintenance_key, maintenance_value, set_maintenance_value, delete_key, decode_lease,
  execution_maintenance_lease, begin_execution_maintenance, end_execution_maintenance, locked,
  try_acquire_maintenance_lease, release_maintenance_lease, blocks, releases, keyed_lease,
  same_owner,
}

-- A stored value is read back, and other keys keep theirs.
pub maintenance_value-set :
    (key j : String) (value : StoredJson) (db : Database)
    → maintenance_value j (set_maintenance_value key value db)
      ≡ (if key == j then some value else maintenance_value j db)
unfolding maintenance_value set_maintenance_value
maintenance_value-set key j value db = ground (
  arith,
  Table.find-replace maintenance_key (record { key = key; value = value }) j db.maintenance,
)

maintenance_value-delete :
    (key j : String) (db : Database)
    → maintenance_value j (delete_key key db) ≡ (if key == j then none else maintenance_value j db)
unfolding maintenance_value delete_key
maintenance_value-delete key j db =
    ground (arith, Table.find-delete maintenance_key key j db.maintenance)

lease-delete :
    (later : Time) (db : Database)
    → execution_maintenance_lease later (delete_key "execution_maintenance" db) ≡ none
unfolding execution_maintenance_lease
lease-delete later db =
    ap (decode_lease later)
      (maintenance_value-delete "execution_maintenance" "execution_maintenance" db)

module _ (to_iso_string : Time → String) where
  -- While another owner's lease is in force, `beginExecutionMaintenance` answers with that lease and
  -- changes nothing, and `endExecutionMaintenance` by anyone but its owner ends nothing; by its owner
  -- it ends the lease.
  pub execution_maintenance_excludes :
      (owner reason : String) (lease_ms : ℕ) (now : Time) (db : Database)
      (lease : ExecutionMaintenanceLease)
      → execution_maintenance_lease now db ≡ some lease
      → lease.owner ≢ owner
      → (begin_execution_maintenance to_iso_string owner reason lease_ms now db
          ≡ (locked lease, db))
        × (end_execution_maintenance owner now db ≡ (false, db))
        × ((end_execution_maintenance lease.owner now db).0 ≡ true)
        × (execution_maintenance_lease now (end_execution_maintenance lease.owner now db).1 ≡ none)
  unfolding begin_execution_maintenance end_execution_maintenance
  execution_maintenance_excludes owner reason lease_ms now db lease h ne = (
    rw (h, begin_execution_maintenance) (ground (arith, eq_iff lease.owner owner)),
    rw (h, end_execution_maintenance) (ground (arith, eq_iff lease.owner owner)),
    rw (h, end_execution_maintenance) (ground (arith, eq_iff lease.owner lease.owner)),
    rw (h, end_execution_maintenance)
        (ground (arith, eq_iff lease.owner lease.owner, lease-delete now db)),
  )

blocks-keyed_lease :
    (owner other : String) (until now : Time)
    → blocks (some (keyed_lease owner until)) other now ≡ (ltb now until && not (owner == other))
unfolding blocks keyed_lease lookup_field
blocks-keyed_lease owner other until now = refl

releases-keyed_lease :
    (owner other : String) (until : Time)
    → releases (some (keyed_lease owner until)) other ≡ (owner == other)
unfolding releases keyed_lease lookup_field
releases-keyed_lease owner other until = refl

pub value-set_self :
    (key : String) (value : StoredJson) (db : Database)
    → maintenance_value key (set_maintenance_value key value db) ≡ some value
value-set_self key value db = rw (maintenance_value-set, eq_refl)

pub value-delete_self :
    (key : String) (db : Database) → maintenance_value key (delete_key key db) ≡ none
value-delete_self key db = rw (maintenance_value-delete, eq_refl)

-- What the next acquisition does, by the value that it finds.
acquire : String → String → Time → ℕ → Database → Option StoredJson → Bool × Database
acquire key owner now lease_ms db value =
    if blocks value owner now
    then (false, db)
    else (true, set_maintenance_value key (keyed_lease owner (now + lease_ms)) db)

acquire_lem :
    (key owner : String) (now : Time) (lease_ms : ℕ) (db : Database)
    → try_acquire_maintenance_lease key owner now lease_ms db
      ≡ acquire key owner now lease_ms db (maintenance_value key db)
unfolding try_acquire_maintenance_lease acquire
acquire_lem key owner now lease_ms db = refl

release : String → String → Database → Option StoredJson → Database
release key owner db value = if releases value owner then delete_key key db else db

release_lem :
    (key owner : String) (db : Database)
    → release_maintenance_lease key owner db ≡ release key owner db (maintenance_value key db)
unfolding release_maintenance_lease release
release_lem key owner db = refl

-- A keyed lease has one holder. After `tryAcquireMaintenanceLease` stored the lease of `owner` until
-- a deadline, the same call by another owner before the deadline is refused and changes nothing, and
-- every other call stores the caller's lease; a release by another owner changes nothing, and after
-- the holder's release any call acquires.
pub try_acquire_maintenance_lease_excludes :
    (key owner other : String) (until now : Time) (lease_ms : ℕ) (db : Database)
    → let held = set_maintenance_value key (keyed_lease owner until) db in
      (try_acquire_maintenance_lease key other now lease_ms held ≡ (
        if ltb now until && not (owner == other)
        then (false, held)
        else (true, set_maintenance_value key (keyed_lease other (now + lease_ms)) held)))
      × (release_maintenance_lease key other held
          ≡ (if owner == other then delete_key key held else held))
      × ((try_acquire_maintenance_lease key other now lease_ms
            (release_maintenance_lease key owner held)).0
          ≡ true)
unfolding acquire release blocks
try_acquire_maintenance_lease_excludes key owner other until now lease_ms db =
    (acquire_held, release_held other, after_release)
  where
    held : Database
    held = set_maintenance_value key (keyed_lease owner until) db

    acquire_held : try_acquire_maintenance_lease key other now lease_ms held ≡ (
        if ltb now until && not (owner == other)
        then (false, held)
        else (true, set_maintenance_value key (keyed_lease other (now + lease_ms)) held))
    acquire_held =
        acquire_lem key other now lease_ms held
        ∙ ap (acquire key other now lease_ms held) (value-set_self key (keyed_lease owner until) db)
        ∙ ap
            (λ (b : Bool).
              if b
              then (let x : Bool × Database = (false, held) in x)
              else (true, set_maintenance_value key (keyed_lease other (now + lease_ms)) held))
            (blocks-keyed_lease owner other until now)

    release_held :
        (who : String)
        → release_maintenance_lease key who held
          ≡ (if owner == who then delete_key key held else held)
    release_held who =
        release_lem key who held
        ∙ ap (release key who held) (value-set_self key (keyed_lease owner until) db)
        ∙ ap (λ (b : Bool). if b then delete_key key held else held)
            (releases-keyed_lease owner who until)

    after_release :
        (try_acquire_maintenance_lease key other now lease_ms
          (release_maintenance_lease key owner held)).0
        ≡ true
    after_release = rw (release_held owner, eq_refl, acquire_lem, value-delete_self) refl

-- The holder of a keyed lease deletes it.
pub release-held :
    (key owner : String) (until : Time) (db : Database)
    → maintenance_value key db ≡ some (keyed_lease owner until)
    → maintenance_value key (release_maintenance_lease key owner db) ≡ none
unfolding release keyed_lease releases property same_owner
release-held key owner until db e =
    ap (maintenance_value key) (
      release_lem key owner db
      ∙ ap (release key owner db) e
      ∙ if_true (owner == owner) (delete_key key db) db (eq_refl owner))
    ∙ value-delete_self key db

-- An acquisition that succeeds stores the lease.
pub acquire-held :
    (key owner : String) (now : Time) (lease_ms : ℕ) (db : Database)
    → (try_acquire_maintenance_lease key owner now lease_ms db).0 ≡ true
    → maintenance_value key (try_acquire_maintenance_lease key owner now lease_ms db).1
      ≡ some (keyed_lease owner (now + lease_ms))
unfolding try_acquire_maintenance_lease
acquire-held key owner now lease_ms db e =
    ground (arith, e, value-set_self key (keyed_lease owner (now + lease_ms)) db)
