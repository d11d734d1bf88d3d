-- ===== src/State/Reservations/Quota.antt =====
-- What an accepted reservation guarantees: the storage quota and the free-space reserve of each volume.
use mira_bridge.Base.{
  ℕ, ◌+◌, ◌≤◌, ◌≡◌, String, true, false, none, [], ◌∷◌, ◌==◌, ◌||◌, arith, sum_by, holds_text,
  Result, ok, err, subst, sym, leb, commit_or_rollback,
}
use mira_bridge.Base.Table
use mira_bridge.State.Rows.{StorageReservationRow, Database, StateError, Time}
use mira_bridge.State.Reservations.{
  Capacity, ReserveResult, reservation_key, try_reserve_storage, reserve_body, reserve_new,
  reserved_by_volume, requested_by_volume, any_lacks_space, bytes_on, release_storage_reservation,
  delete_expired_storage_reservations,
}
use mira_bridge.State.Reservations.Volumes.{
  volume_bytes, bytes_on-reserved_by_volume, bytes_on-requested_by_volume, has_volume-requested,
  any_lacks_space-Fits, Fits,
}

abbrev pub root_bytes_of : StorageReservationRow → ℕ
root_bytes_of r = r.root_bytes

abbrev pub reserved_root : Database → ℕ
reserved_root db = sum_by root_bytes_of db.storage_reservations

-- The bytes in use and those reserved under the data root keep to the quota.
abbrev pub WithinQuota : Capacity → Database → Type 0
WithinQuota c db = c.current_used_bytes + reserved_root db ≤ c.quota_bytes

reserved_root-delete_expired :
    (now : Time) (db : Database)
    → reserved_root (delete_expired_storage_reservations now db) ≤ reserved_root db
unfolding delete_expired_storage_reservations
reserved_root-delete_expired now db =
    Table.sum_by-delete-le root_bytes_of (λ r. leb r.expires_at now) db.storage_reservations

reserve_new-WithinQuota :
    (r : StorageReservationRow) (c : Capacity) (db : Database)
    → WithinQuota c db
    → WithinQuota c (reserve_new r c db).1
unfolding reserve_new Table.insert
reserve_new-WithinQuota r c db h = ground arith

reserve_body-WithinQuota :
    (r : StorageReservationRow) (c : Capacity) (db : Database)
    → WithinQuota c db
    → WithinQuota c (reserve_body r c db).1
unfolding reserve_body
reserve_body-WithinQuota r c db h = ground (arith, reserve_new-WithinQuota r c db h)

-- Every call that touches the reservations keeps the bytes in use plus the reserved root bytes
-- within the quota, whatever it answers: `tryReserveStorage`, a release, and the removal of expired
-- rows.
pub reservations-WithinQuota :
    (r : StorageReservationRow) (c : Capacity) (db : Database) (id : String) (now : Time)
    → WithinQuota c db
    → WithinQuota c (try_reserve_storage r c db).1
      × WithinQuota c (release_storage_reservation id db)
      × WithinQuota c (delete_expired_storage_reservations now db)
unfolding try_reserve_storage release_storage_reservation
reservations-WithinQuota r c db id now h = (
  ground (
    arith,
    reserve_body-WithinQuota r c (delete_expired_storage_reservations r.created_at db),
    reserved_root-delete_expired r.created_at db,
  ),
  omega (
    arith,
    Table.sum_by-delete-le root_bytes_of (λ q. q.reservation_id == id) db.storage_reservations,
  ),
  omega (arith, reserved_root-delete_expired now db),
)

-- The reservation is new: no unexpired row has its identifier.
abbrev pub IsFresh : StorageReservationRow → Database → Type 0
IsFresh r db =
    Table.find reservation_key r.reservation_id
      (delete_expired_storage_reservations r.created_at db).storage_reservations
    ≡ none

pub reserve_new-accepted :
    (r : StorageReservationRow) (c : Capacity) (db : Database) (q : ReserveResult)
    → Table.find reservation_key r.reservation_id db.storage_reservations ≡ none
    → (reserve_new r c db).0 ≡ ok q
    → q.accepted ≡ true
    → (any_lacks_space (requested_by_volume r) (reserved_by_volume db.storage_reservations []) c
        ≡ false)
      × (c.current_used_bytes + reserved_root db + r.root_bytes ≤ c.quota_bytes)
      × ((reserve_new r c db).1.storage_reservations ≡ r ∷ db.storage_reservations)
unfolding reserve_new Table.insert
reserve_new-accepted r c db q absent h a = ground arith

pub reserve_body-fresh :
    (r : StorageReservationRow) (c : Capacity) (db : Database)
    → Table.find reservation_key r.reservation_id db.storage_reservations ≡ none
    → reserve_body r c db ≡ reserve_new r c db
unfolding reserve_body
reserve_body-fresh r c db absent = rw (absent, reserve_body)

-- The volume is named and the reservation takes bytes of it.
abbrev pub Uses : StorageReservationRow → String → Type 0
Uses r v = ((v == "") ≡ false) × (((r.root_volume == v) || holds_text r.target_volume v) ≡ true)

reserve_new-Fits :
    (r : StorageReservationRow) (c : Capacity) (db : Database) (q : ReserveResult) (v : String)
    → Table.find reservation_key r.reservation_id db.storage_reservations ≡ none
    → (reserve_new r c db).0 ≡ ok q
    → q.accepted ≡ true
    → Uses r v
    → WithinQuota c (reserve_new r c db).1
      × Fits c v (volume_bytes v (reserve_new r c db).1.storage_reservations)
reserve_new-Fits r c db q v absent h a u =
    let (fits, quota, rows) = reserve_new-accepted r c db q absent h a in
    let sum : bytes_on v (reserved_by_volume db.storage_reservations [])
          + bytes_on v (requested_by_volume r)
        ≡ volume_bytes v (r ∷ db.storage_reservations) =
      unfold bytes_on in
      omega (
        arith,
        bytes_on-reserved_by_volume v u.0 db.storage_reservations [],
        bytes_on-requested_by_volume v u.0 r,
      ) in
    rw rows (
      omega arith,
      subst (Fits c v) sum (
          any_lacks_space-Fits v (requested_by_volume r)
            (reserved_by_volume db.storage_reservations []) c fits
            (has_volume-requested v r u.0 u.1)),
    )

-- When `tryReserveStorage` accepts a new reservation, then with it stored the bytes in use and all
-- reserved root bytes fit the quota, and on each volume that it uses the known free bytes cover the
-- minimum reserve and the bytes of every stored reservation on that volume.
pub try_reserve_storage-Fits :
    (r : StorageReservationRow) (c : Capacity) (db : Database) (q : ReserveResult) (v : String)
    → IsFresh r db
    → (try_reserve_storage r c db).0 ≡ ok q
    → q.accepted ≡ true
    → Uses r v
    → WithinQuota c (try_reserve_storage r c db).1
      × Fits c v (volume_bytes v (try_reserve_storage r c db).1.storage_reservations)
unfolding try_reserve_storage
try_reserve_storage-Fits r c db q v fresh h a u =
    go (reserve_body r c before) (rw (sym (reserve_body-fresh r c before fresh)) at lemma) h
  where
    before : Database
    before = delete_expired_storage_reservations r.created_at db

    Goal : Result StateError ReserveResult × Database → Type 0
    Goal out =
        out.0 ≡ ok q → WithinQuota c out.1 × Fits c v (volume_bytes v out.1.storage_reservations)

    lemma : Goal (reserve_new r c before)
    lemma k = reserve_new-Fits r c before q v fresh k a u

    go :
        (out : Result StateError ReserveResult × Database)
        → Goal out
        → (commit_or_rollback db out.0 out.1).0 ≡ ok q
        → WithinQuota c (commit_or_rollback db out.0 out.1).1
          × Fits c v (volume_bytes v (commit_or_rollback db out.0 out.1).1.storage_reservations)
    go (ok x, d) g k = g k
    go (err e, d) g k = cc
