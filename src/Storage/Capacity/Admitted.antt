-- ===== src/Storage/Capacity/Admitted.antt =====
-- What `ensureStorageCapacity` has admitted fits.
use mira_bridge.Base.{
  String, true, some, Result, ok, err, ◌≡◌, refl, continue, Bool-cases, inl, inr,
}
use mira_bridge.Protocol.Errors.{BridgeError}
use mira_bridge.State.Rows.{Database, StateError}
use mira_bridge.State.Reservations.{ReserveResult, try_reserve_storage}
use mira_bridge.State.Reservations.Quota.{try_reserve_storage-Fits, IsFresh, Uses, WithinQuota}
use mira_bridge.State.Reservations.Volumes.{volume_bytes, Fits}
use mira_bridge.Storage.{Disk, StorageConfig, StorageStatus}
use mira_bridge.Storage.Prune.{Collection, PruneOptions, PruneResult}
use mira_bridge.Storage.Collect.{prune_storage}
use mira_bridge.Storage.Capacity.{
  CapacityRequest, wanted_row, capacity_of, ensure_storage_capacity, admit, after_admission, answer,
  unless_reserved,
}

module _ (d : Disk) (config : StorageConfig) (o : PruneOptions) (r : CapacityRequest)
    (id v : String) (reserves : r.reservation_id ≡ some id)
    (uses : Uses (wanted_row d config o r) v) where
  Room : d.Files → StorageStatus → Database → Type 0
  Room files current db =
      WithinQuota (capacity_of d config o r current files) db
      × Fits (capacity_of d config o r current files) v (volume_bytes v db.storage_reservations)

  after_admission-Room :
      (current result : StorageStatus) (a : Result StateError ReserveResult) (s : Collection d)
      → ((q : ReserveResult) → a ≡ ok q → q.accepted ≡ true → Room s.files current s.db)
      → (after_admission d config o r current a s).0 ≡ ok result
      → Room
          (after_admission d config o r current a s).1.files
          result
          (after_admission d config o r current a s).1.db
  unfolding after_admission answer unless_reserved
  after_admission-Room current result (err e) s room h = cc
  after_admission-Room current result (ok q) s room h = elim (Bool-cases q.accepted) [
    | inl y ↦
        let same : current ≡ result = cc (rw (y, answer) at h) in
        rw (reserves, ← same) (room q refl y)
    | inr n ↦ cc (rw (n, answer) at h)
  ]

  admit-Room :
      (current result : StorageStatus) (s : Collection d)
      → IsFresh (wanted_row d config o r) s.db
      → (admit d config o r current s).0 ≡ ok result
      → Room (admit d config o r current s).1.files result (admit d config o r current s).1.db
  unfolding admit Room
  admit-Room current result s fresh h =
      let out =
        try_reserve_storage (wanted_row d config o r) (capacity_of d config o r current s.files)
          s.db in
      after_admission-Room current result out.0 (record s { db = out.1 })
        (λ q e y.
          try_reserve_storage-Fits (wanted_row d config o r)
            (capacity_of d config o r current s.files) s.db q v fresh e y uses)
        h

  continue-Room :
      (p : Result BridgeError PruneResult) (result : StorageStatus) (s : Collection d)
      → IsFresh (wanted_row d config o r) s.db
      → (continue (λ (pruned : PruneResult). admit d config o r pruned.after) p s).0 ≡ ok result
      → Room
          (continue (λ (pruned : PruneResult). admit d config o r pruned.after) p s).1.files
          result
          (continue (λ (pruned : PruneResult). admit d config o r pruned.after) p s).1.db
  continue-Room (err e) result s fresh h = cc
  continue-Room (ok pruned) result s fresh h = admit-Room pruned.after result s fresh h

-- When `ensureStorageCapacity` succeeds for a reservation whose identifier no unexpired row has after the
-- collection, the bytes in use and all reserved root bytes then fit the quota, and on each volume that the
-- reservation uses the free bytes found cover the minimum reserve and all stored reservations on it.
pub ensure_storage_capacity-Fits :
    (d : Disk) (config : StorageConfig) (o : PruneOptions) (r : CapacityRequest) (id v : String)
    (current : StorageStatus) (s : Collection d)
    → r.reservation_id ≡ some id
    → Uses (wanted_row d config o r) v
    → IsFresh (wanted_row d config o r) (prune_storage d config o s).1.db
    → (ensure_storage_capacity d config o r s).0 ≡ ok current
    → WithinQuota
        (capacity_of d config o r current (ensure_storage_capacity d config o r s).1.files)
        (ensure_storage_capacity d config o r s).1.db
      × Fits
          (capacity_of d config o r current (ensure_storage_capacity d config o r s).1.files)
          v
          (volume_bytes v (ensure_storage_capacity d config o r s).1.db.storage_reservations)
unfolding ensure_storage_capacity Room
ensure_storage_capacity-Fits d config o r id v current s reserves uses fresh h =
    continue-Room d config o r id v reserves uses (prune_storage d config o s).0 current
      (prune_storage d config o s).1 fresh h
