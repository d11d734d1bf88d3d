-- ===== src/Tests/Leases.antt =====
-- Maintenance leases and transfer owners on concrete rows.
use mira_bridge.Base.{◌≡◌, refl, String, true, false, none, some, [], ◌∷◌, eq_iff}
use mathlib.Core.Bool.{false≢true}
use mira_bridge.Base.Json
use mira_bridge.Base.Table
use mira_bridge.State.Rows.{empty, Database, ExecutionMaintenanceLease, Time}
use mira_bridge.State.Maintenance.{
  locked, begin_execution_maintenance, end_execution_maintenance, execution_maintenance_lease,
  try_acquire_maintenance_lease, release_maintenance_lease, keyed_lease, set_maintenance_value,
  encode_lease,
}
use mira_bridge.State.Maintenance.Leases.{
  execution_maintenance_excludes, try_acquire_maintenance_lease_excludes,
}
use mira_bridge.State.Transfers.{get_transfer, claim_transfer_owner, clear_transfer_owner}
use mira_bridge.State.Transfers.Ownership.{claim_transfer_owner_excludes}
use mira_bridge.Tests.Samples.{free_transfer}

abbrev iso : Time → String
iso now = "2026-01-01T00:00:00.000Z"

abbrev update_lease : ExecutionMaintenanceLease
update_lease = record {
  owner = "updater";
  reason = "update";
  created_at = iso 10;
  expires_at = iso 15;
  expires_at_ms = 15;
}

abbrev paused : Database
paused = set_maintenance_value "execution_maintenance" (encode_lease update_lease) empty

execution_maintenance_excludes_example :
    (begin_execution_maintenance iso "other" "update" 5 12 paused ≡ (locked update_lease, paused))
    × (end_execution_maintenance "other" 12 paused ≡ (false, paused))
    × ((end_execution_maintenance "updater" 12 paused).0 ≡ true)
    × (execution_maintenance_lease 12 (end_execution_maintenance "updater" 12 paused).1 ≡ none)
unfolding execution_maintenance_lease set_maintenance_value encode_lease Table.find Table.replace
    Json.lookup_field
execution_maintenance_excludes_example =
    execution_maintenance_excludes iso "other" "update" 5 12 paused update_lease refl
      (λ p. false≢true ((eq_iff "updater" "other").1 p))

abbrev gc_held : Database
gc_held = set_maintenance_value "gc_lease" (keyed_lease "a" 20) empty

try_acquire_maintenance_lease_excludes_example :
    (try_acquire_maintenance_lease "gc_lease" "b" 12 5 gc_held ≡ (false, gc_held))
    × (release_maintenance_lease "gc_lease" "b" gc_held ≡ gc_held)
    × ((try_acquire_maintenance_lease "gc_lease" "b" 12 5
          (release_maintenance_lease "gc_lease" "a" gc_held)).0
        ≡ true)
try_acquire_maintenance_lease_excludes_example =
    try_acquire_maintenance_lease_excludes "gc_lease" "a" "b" 20 12 5 empty

abbrev waiting : Database
waiting = record empty { transfers = free_transfer ∷ [] }

abbrev owned : Database
owned = (claim_transfer_owner "t" "a" 4 2 6 waiting).1

claim_transfer_owner_excludes_example :
    ((claim_transfer_owner "t" "a" 4 2 6 waiting).0 ≡ true)
    × (get_transfer "t" owned
        ≡ some (record free_transfer {
          owner_id = some "a";
          owner_pid = some 4;
          owner_started_at = some 2;
          updated_at = 6;
        }))
    × (claim_transfer_owner "t" "b" 5 3 9 owned ≡ (false, owned))
    × (get_transfer "t" (clear_transfer_owner "t" "b" 9 owned) ≡ get_transfer "t" owned)
unfolding get_transfer Table.find
claim_transfer_owner_excludes_example =
    claim_transfer_owner_excludes "t" "a" "b" 4 5 2 3 6 9 waiting free_transfer refl refl
