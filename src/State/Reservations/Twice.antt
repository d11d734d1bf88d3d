-- ===== src/State/Reservations/Twice.antt =====
-- `tryReserveStorage` of packages/windows-worker/src/state.ts, called again for an identifier that is stored.
use mira_bridge.Base.{
  ◌≡◌, true, false, none, some, [], ◌∷◌, arith, if◌then◌else◌, Result, ok, err, sym, ap, ◌∙◌, leb,
  commit_or_rollback, List, eq_iff,
}
use mira_bridge.Base.Table
use mira_bridge.State.Rows.{StorageReservationRow, Database, StateError, Time}
use mira_bridge.State.Reservations.{
  Capacity, ReserveResult, reservation_key, try_reserve_storage, reserve_body, reserve_new,
  delete_expired_storage_reservations, same_reservation, duplicate,
}
use mira_bridge.State.Reservations.Quota.{IsFresh, reserve_new-accepted, reserve_body-fresh}

-- What a repeated reservation is told.
abbrev pub repeated : StorageReservationRow → StorageReservationRow → ReserveResult
repeated r existing = record {
  accepted = same_reservation existing r;
  reserved_root_bytes = 0;
  reserved_bytes_by_volume = [];
  reason = if same_reservation existing r then none else some duplicate;
}

reserve_body-found :
    (r existing : StorageReservationRow) (c : Capacity) (db : Database)
    → Table.find reservation_key r.reservation_id db.storage_reservations ≡ some existing
    → reserve_body r c db ≡ (ok (repeated r existing), db)
unfolding reserve_body
reserve_body-found r existing c db found = rw (found, reserve_body)

-- After `tryReserveStorage` has stored a new row, the row is found and no unexpired copy is before it.
reserved-found :
    (r : StorageReservationRow) (later : Time) (db : Database) (rows : List StorageReservationRow)
    → db.storage_reservations ≡ r ∷ rows
    → leb r.expires_at later ≡ false
    → Table.find reservation_key r.reservation_id
        (delete_expired_storage_reservations later db).storage_reservations
      ≡ some r
unfolding delete_expired_storage_reservations Table.delete Table.find
reserved-found r later db rows e live =
    rw (e, live) (ground (arith, eq_iff r.reservation_id r.reservation_id))

reserve_storage-stored :
    (r : StorageReservationRow) (c : Capacity) (db : Database) (q : ReserveResult)
    → IsFresh r db
    → (try_reserve_storage r c db).0 ≡ ok q
    → q.accepted ≡ true
    → (try_reserve_storage r c db).1.storage_reservations
      ≡ r ∷ (delete_expired_storage_reservations r.created_at db).storage_reservations
unfolding try_reserve_storage
reserve_storage-stored r c db q fresh h a =
    go (reserve_body r c before) (rw (sym (reserve_body-fresh r c before fresh)) at lemma) h
  where
    before : Database
    before = delete_expired_storage_reservations r.created_at db

    Goal : Result StateError ReserveResult × Database → Type 0
    Goal out = out.0 ≡ ok q → out.1.storage_reservations ≡ r ∷ before.storage_reservations

    lemma : Goal (reserve_new r c before)
    lemma k = (reserve_new-accepted r c before q fresh k a).2

    go :
        (out : Result StateError ReserveResult × Database)
        → Goal out
        → (commit_or_rollback db out.0 out.1).0 ≡ ok q
        → (commit_or_rollback db out.0 out.1).1.storage_reservations
          ≡ r ∷ before.storage_reservations
    go (ok x, d) g k = g k
    go (err e, d) g k = cc

-- After `tryReserveStorage` has accepted a new reservation, another call with its identifier, before it
-- expires, keeps the stored row and all others that have not expired and adds none, under any capacity: it is
-- accepted if operation, amounts and volumes are those stored, and otherwise refused as a duplicate.
pub try_reserve_storage_twice :
    (r again : StorageReservationRow) (c d : Capacity) (db : Database) (q : ReserveResult)
    → IsFresh r db
    → (try_reserve_storage r c db).0 ≡ ok q
    → q.accepted ≡ true
    → again.reservation_id ≡ r.reservation_id
    → leb r.expires_at again.created_at ≡ false
    → let first = (try_reserve_storage r c db).1 in
      let (answer, second) = try_reserve_storage again d first in
      (answer ≡ ok (repeated again r))
      × (second ≡ delete_expired_storage_reservations again.created_at first)
      × (Table.find reservation_key r.reservation_id second.storage_reservations ≡ some r)
unfolding try_reserve_storage
try_reserve_storage_twice r again c d db q fresh h a same live =
    let first = (try_reserve_storage r c db).1 in
    let kept =
      reserved-found r again.created_at first _ (reserve_storage-stored r c db q fresh h a) live in
    let found =
      ap
        (λ id.
          Table.find reservation_key id
            (delete_expired_storage_reservations again.created_at first).storage_reservations)
        same
      ∙ kept in
    let out =
      ap (λ (o : Result StateError ReserveResult × Database). commit_or_rollback first o.0 o.1)
        (reserve_body-found again r d (delete_expired_storage_reservations again.created_at first)
          found) in
    (
      ap (λ (o : Result StateError ReserveResult × Database). o.0) out,
      ap (λ (o : Result StateError ReserveResult × Database). o.1) out,
      ap
            (λ (o : Result StateError ReserveResult × Database).
              Table.find reservation_key r.reservation_id o.1.storage_reservations)
            out
          ∙ kept,
    )
