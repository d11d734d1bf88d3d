-- ===== src/State/Maintenance.antt =====
-- The maintenance table of packages/windows-worker/src/state.ts: the lease that pauses execution,
-- and the keyed leases of background work. `Date.prototype.toISOString` is a parameter of the two
-- functions that store its text, which is only shown to users.
pub mod Leases
use mira_bridge.Base.{
  ℕ, ◌+◌, String, Bool, true, false, Option, none, some, List, ◌==◌, ◌&&◌, ◌≡◌, ltb, leb,
  if◌then◌else◌, not, count_by,
}
use mira_bridge.Base.Json.{
  Json, null, obj, str, num, field, end, StoredJson, parsed, corrupt, blank, property, as_text,
  as_number,
}
use mira_bridge.Base.Table
use mira_bridge.Protocol.Constants.{is_terminal}
use mira_bridge.State.Rows.{MaintenanceRow, ExecutionMaintenanceLease, Database, Time}

abbrev pub maintenance_key : MaintenanceRow → String
maintenance_key row = row.key

value_of : Option MaintenanceRow → Option StoredJson
value_of none = none
value_of (some row) = some row.value

unfoldable pub maintenance_value : String → Database → Option StoredJson
unfolding value_of
maintenance_value key db = value_of (Table.find maintenance_key key db.maintenance)

unfoldable pub set_maintenance_value : String → StoredJson → Database → Database
set_maintenance_value key value db = record db {
  maintenance = Table.replace maintenance_key (record { key = key; value = value }) db.maintenance;
}

unfoldable pub delete_key : String → Database → Database
delete_key key db = record db { maintenance = Table.delete (λ row. row.key == key) db.maintenance }

-- The tests of `executionMaintenance` on the decoded fields.
check_lease :
    Time
    → Option String
    → Option String
    → Option String
    → Option String
    → Option ℕ
    → Option ExecutionMaintenanceLease
check_lease now (some owner) (some reason) (some created_at) (some expires_at) (some until) =
    if leb until now
    then none
    else some (record {
      owner = owner;
      reason = reason;
      created_at = created_at;
      expires_at = expires_at;
      expires_at_ms = until;
    })
check_lease now _ _ _ _ _ = none

decode_lease : Time → Option StoredJson → Option ExecutionMaintenanceLease
unfolding check_lease property
decode_lease now none = none
decode_lease now (some corrupt) = none
decode_lease now (some blank) = none
decode_lease now (some (parsed j)) =
    check_lease now (as_text (property "owner" j)) (as_text (property "reason" j))
      (as_text (property "created_at" j)) (as_text (property "expires_at" j))
      (as_number (property "expires_at_ms" j))

-- `executionMaintenance(nowMs)`
unfoldable pub execution_maintenance_lease : Time → Database → Option ExecutionMaintenanceLease
unfolding decode_lease maintenance_value
execution_maintenance_lease now db = decode_lease now (maintenance_value "execution_maintenance" db)

unfoldable pub count_non_terminal_jobs : Database → ℕ
count_non_terminal_jobs db = count_by (λ job. not (is_terminal job.executor_status)) db.jobs

pub data Admission : Type 0 where
  acquired : ExecutionMaintenanceLease → Admission
  active_jobs : ℕ → Admission
  locked : ExecutionMaintenanceLease → Admission

-- JSON.stringify(lease)
unfoldable pub encode_lease : ExecutionMaintenanceLease → StoredJson
encode_lease lease = parsed (
    obj (
      field "owner" (str lease.owner) (
        field "reason" (str lease.reason) (
          field "created_at" (str lease.created_at) (
            field "expires_at" (str lease.expires_at)
              (field "expires_at_ms" (num lease.expires_at_ms) end))))))

abbrev held_by_other : Option ExecutionMaintenanceLease → String → Bool
held_by_other none owner = false
held_by_other (some lease) owner = not (lease.owner == owner)

module _ (to_iso_string : Time → String) where
  new_lease : String → String → ℕ → Time → ExecutionMaintenanceLease
  new_lease owner reason lease_ms now = record {
    owner = owner;
    reason = reason;
    created_at = to_iso_string now;
    expires_at = to_iso_string (now + lease_ms);
    expires_at_ms = now + lease_ms;
  }

  begin_unlocked : String → String → ℕ → Time → Database → Admission × Database
  unfolding new_lease
  begin_unlocked owner reason lease_ms now db =
      let jobs = count_non_terminal_jobs db in
      if ltb 0 jobs then (active_jobs jobs, db) else (
        acquired (new_lease owner reason lease_ms now),
        set_maintenance_value "execution_maintenance"
            (encode_lease (new_lease owner reason lease_ms now)) db,
      )

  -- `beginExecutionMaintenance`
  unfoldable pub begin_execution_maintenance :
      String → String → ℕ → Time → Database → Admission × Database
  unfolding begin_unlocked
  begin_execution_maintenance owner reason lease_ms now db =
      elim (execution_maintenance_lease now db) [
        | none ↦ begin_unlocked owner reason lease_ms now db
        | some existing ↦
            if not (existing.owner == owner)
            then (locked existing, db)
            else begin_unlocked owner reason lease_ms now db
      ]

-- `endExecutionMaintenance`
unfoldable pub end_execution_maintenance : String → Time → Database → Bool × Database
unfolding delete_key
end_execution_maintenance owner now db = elim (execution_maintenance_lease now db) [
  | none ↦ (false, db)
  | some lease ↦
      if not (lease.owner == owner)
      then (false, db)
      else (true, delete_key "execution_maintenance" db)
]

-- The owner and the deadline of a keyed lease that another owner still holds, and false for a
-- stored value that is no lease.
same_owner : Option Json → String → Bool
same_owner (some (str s)) owner = s == owner
same_owner none owner = false
same_owner _ owner = false

blocks : Option StoredJson → String → Time → Bool
unfolding property same_owner
blocks none owner now = false
blocks (some corrupt) owner now = false
blocks (some blank) owner now = false
blocks (some (parsed j)) owner now = elim (as_number (property "expires_at_ms" j)) [
  | none ↦ false
  | some until ↦ ltb now until && not (same_owner (property "owner" j) owner)
]

-- JSON.stringify({ owner, expires_at_ms })
unfoldable pub keyed_lease : String → Time → StoredJson
keyed_lease owner until =
    parsed (obj (field "owner" (str owner) (field "expires_at_ms" (num until) end)))

-- `tryAcquireMaintenanceLease`
unfoldable pub try_acquire_maintenance_lease :
    String → String → Time → ℕ → Database → Bool × Database
unfolding blocks keyed_lease
try_acquire_maintenance_lease key owner now lease_ms db =
    if blocks (maintenance_value key db) owner now
    then (false, db)
    else (true, set_maintenance_value key (keyed_lease owner (now + lease_ms)) db)

-- Whether `releaseMaintenanceLease` deletes the value: for the owner's lease, for a text that is
-- no JSON and not empty, and for `null`, whose property access throws.
releases : Option StoredJson → String → Bool
unfolding property same_owner
releases none owner = false
releases (some corrupt) owner = true
releases (some blank) owner = false
releases (some (parsed null)) owner = true
releases (some (parsed j)) owner = same_owner (property "owner" j) owner

-- `releaseMaintenanceLease`
unfoldable pub release_maintenance_lease : String → String → Database → Database
unfolding releases delete_key
release_maintenance_lease key owner db =
    if releases (maintenance_value key db) owner then delete_key key db else db
