-- ===== src/Storage/Capacity.antt =====
-- `assertFreeSpace` and `ensureStorageCapacity` of packages/windows-worker/src/storage.ts. An error of
-- the database is what its caller makes of it, an internal error. The reservation's times are numbers.
pub mod Admitted
use mira_bridge.Base.{
  ◌*◌, ℕ, ◌+◌, String, Option, none, some, List, [], ◌∷◌, ltb, if◌then◌else◌, Result, ok, err,
  ◌>>=◌, or_default,
}
use mira_bridge.Protocol.Errors.{BridgeError, bridge_error, storage_quota_exceeded, internal_error}
use mira_bridge.State.Rows.{StorageReservationRow, Database, StateError, Time}
use mira_bridge.State.Reservations.{
  Capacity, ReserveResult, try_reserve_storage, release_storage_reservation,
}
use mira_bridge.Storage.{Disk, StorageConfig, StorageStatus}
use mira_bridge.Storage.Prune.{Collection, PruneOptions, Step}
use mira_bridge.Storage.Collect.{prune_storage}

-- `assertFreeSpace`
unfoldable pub assert_free_space :
    (d : Disk) → String → ℕ → ℕ → d.Files → Result BridgeError (Unit {0})
assert_free_space d path required minimum files = elim (d.free_bytes path files) [
  | none ↦ err (bridge_error storage_quota_exceeded none)
  | some available ↦
      if ltb available (minimum + required)
      then err (bridge_error storage_quota_exceeded none)
      else ok tt
]

-- The options of `ensureStorageCapacity`, and the fresh id of a check without a reservation.
pub record CapacityRequest : Type 0 where
  pub operation : String
  pub required_bytes : ℕ
  pub target_path : Option String
  pub target_required_bytes : ℕ
  pub reservation_id : Option String
  pub reservation_ttl_ms : Option ℕ
  pub fresh_id : String
  -- The `new Date()` after the collection.
  pub admitted_at : Time

module _ (d : Disk) (config : StorageConfig) (o : PruneOptions) (r : CapacityRequest) where
  requested_id : String
  requested_id = or_default r.reservation_id r.fresh_id

  volume_of : Option String → Option String
  volume_of none = none
  volume_of (some path) = some (d.volume_key path)

  free_at : Option String → d.Files → Option ℕ
  free_at none files = none
  free_at (some path) files = d.free_bytes path files

  unfoldable pub wanted_row : StorageReservationRow
  unfolding requested_id volume_of
  wanted_row = record {
    reservation_id = requested_id;
    operation = r.operation;
    root_bytes = r.required_bytes;
    root_volume = d.volume_key o.root;
    target_bytes = r.target_required_bytes;
    target_volume = volume_of r.target_path;
    created_at = r.admitted_at;
    expires_at = r.admitted_at + or_default r.reservation_ttl_ms (60 * 60 * 1000);
  }

  -- The object literal: the target's entry replaces the root's on the same volume.
  free_volumes : Option ℕ → Option ℕ → List (String × Option ℕ)
  unfolding volume_of
  free_volumes root_free target_free = elim (volume_of r.target_path) [
    | none ↦ (d.volume_key o.root, root_free) ∷ []
    | some volume ↦ (volume, target_free) ∷ (d.volume_key o.root, root_free) ∷ []
  ]

  unfoldable pub capacity_of : StorageStatus → d.Files → Capacity
  unfolding free_volumes free_at
  capacity_of current files = record {
    current_used_bytes = current.used_bytes;
    quota_bytes = current.quota_bytes;
    minimum_free_bytes = current.minimum_free_bytes;
    free_bytes_by_volume = free_volumes current.free_bytes (free_at r.target_path files);
  }

  answer : StorageStatus → ReserveResult → Result BridgeError StorageStatus
  answer current admission =
      if admission.accepted then ok current else err (bridge_error storage_quota_exceeded none)

  -- A check without a reservation gives its row back at once.
  unless_reserved : Option String → Database → Database
  unless_reserved (some id) db = db
  unless_reserved none db = release_storage_reservation requested_id db

  after_admission :
      StorageStatus
      → Result StateError ReserveResult
      → Collection d
      → Result BridgeError StorageStatus × Collection d
  unfolding answer unless_reserved
  after_admission current (err e) s = (err (bridge_error internal_error none), s)
  after_admission current (ok admission) s =
      (answer current admission, record s { db = unless_reserved r.reservation_id s.db })

  admit : StorageStatus → Step d config o StorageStatus
  unfolding wanted_row capacity_of after_admission
  admit current s =
      let admission = try_reserve_storage wanted_row (capacity_of current s.files) s.db in
      after_admission current admission.0 (record s { db = admission.1 })

  -- `ensureStorageCapacity`; the options are those of a collection that is no dry run.
  unfoldable pub ensure_storage_capacity : Step d config o StorageStatus
  unfolding admit
  ensure_storage_capacity = do pruned ← prune_storage d config o; admit pruned.after
