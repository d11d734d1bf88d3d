-- ===== src/Tests/Reservations.antt =====
-- Storage reservations on concrete volumes.
use mira_bridge.Base.{◌+◌, ◌≡◌, refl, true, none, some, [], ◌∷◌, ok, arith}
use mira_bridge.Base.Table
use mira_bridge.State.Rows.{empty, Database, StorageReservationRow}
use mira_bridge.State.Reservations.{
  Capacity, ReserveResult, try_reserve_storage, release_storage_reservation,
  delete_expired_storage_reservations, reservation_key,
}
use mira_bridge.State.Reservations.Volumes.{Fits, volume_bytes}
use mira_bridge.State.Reservations.Quota.{
  WithinQuota, reservations-WithinQuota, try_reserve_storage-Fits,
}
use mira_bridge.State.Reservations.Twice.{try_reserve_storage_twice, repeated}
use mira_bridge.Tests.Samples.{reservation_of}

abbrev room : Capacity
room = record {
  current_used_bytes = 10;
  quota_bytes = 100;
  minimum_free_bytes = 5;
  free_bytes_by_volume = ("c:", some 60) ∷ ("d:", some 40) ∷ [];
}

abbrev stored : Database
stored = record empty { storage_reservations = reservation_of "a" 20 ∷ [] }

reservations-WithinQuota_example :
    WithinQuota room (try_reserve_storage (reservation_of "b" 30) room stored).1
    × WithinQuota room (release_storage_reservation "a" stored)
    × WithinQuota room (delete_expired_storage_reservations 95 stored)
reservations-WithinQuota_example =
    reservations-WithinQuota (reservation_of "b" 30) room stored "a" 95 (omega arith)

abbrev granted : ReserveResult
granted = record {
  accepted = true;
  reserved_root_bytes = 50;
  reserved_bytes_by_volume = ("c:", 50) ∷ ("d:", 14) ∷ [];
  reason = none;
}

try_reserve_storage-Fits_example :
    WithinQuota room (try_reserve_storage (reservation_of "b" 30) room stored).1
    × Fits room "d:" (
        volume_bytes "d:"
          (try_reserve_storage (reservation_of "b" 30) room stored).1.storage_reservations)
unfolding try_reserve_storage Table.find Table.delete Table.insert
try_reserve_storage-Fits_example =
    try_reserve_storage-Fits (reservation_of "b" 30) room stored granted "d:" refl refl refl
      (refl, refl)

-- The same reservation again, a moment later.
abbrev later_b : StorageReservationRow
later_b = record (reservation_of "b" 30) { created_at = (reservation_of "b" 30).created_at + 1 }

try_reserve_storage_twice_example :
    let first = (try_reserve_storage (reservation_of "b" 30) room stored).1 in
    let (answer, second) = try_reserve_storage later_b room first in
    (answer ≡ ok (repeated later_b (reservation_of "b" 30)))
    × (second ≡ delete_expired_storage_reservations later_b.created_at first)
    × (Table.find reservation_key "b" second.storage_reservations ≡ some (reservation_of "b" 30))
unfolding try_reserve_storage Table.find Table.delete Table.insert
try_reserve_storage_twice_example =
    try_reserve_storage_twice (reservation_of "b" 30) later_b room room stored granted refl refl
      refl refl refl
