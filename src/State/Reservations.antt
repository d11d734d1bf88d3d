-- ===== src/State/Reservations.antt =====
-- The storage reservations of packages/windows-worker/src/state.ts. Byte counts are natural
-- numbers, so a subtraction that the source compares with a bound is written as a sum.
pub mod Volumes
pub mod Quota
pub mod Twice
use mira_bridge.Base.{
  ℕ, ◌+◌, ◌≤◌, String, Bool, true, false, Option, none, some, List, [], ◌∷◌, ◌==◌, ◌&&◌, ◌||◌, ltb,
  leb, eqb, if◌then◌else◌, sum_by, sort_by, filter_by, length, Exec, pure, throw, or_default,
  same_text, commit_or_rollback,
}
use mira_bridge.Base.Table
use mira_bridge.State.Rows.{
  StorageReservationRow, Database, Call, StateError, constraint_failed, Time,
}

abbrev pub reservation_key : StorageReservationRow → String
reservation_key r = r.reservation_id

-- Record<string, number>, in the order of insertion.
abbrev pub Volumes : Type 0
Volumes = List (String × ℕ)

-- `volumes[volume] ?? 0`
unfoldable pub bytes_on : String → Volumes → ℕ
bytes_on v [] = 0
bytes_on v ((w, n) ∷ rest) = if w == v then n else bytes_on v rest

-- `volumes[volume] = (volumes[volume] ?? 0) + bytes`
unfoldable pub add_bytes : String → ℕ → Volumes → Volumes
add_bytes v bytes [] = (v, bytes) ∷ []
add_bytes v bytes ((w, n) ∷ rest) =
    let more = add_bytes v bytes rest in if w == v then (w, n + bytes) ∷ rest else (w, n) ∷ more

-- The closure `add`: no volume, an empty one and no bytes are skipped.
unfoldable pub add_reserved : Option String → ℕ → Volumes → Volumes
unfolding add_bytes
add_reserved none bytes volumes = volumes
add_reserved (some v) bytes volumes =
    if (v == "") || leb bytes 0 then volumes else add_bytes v bytes volumes

unfoldable pub reserved_by_volume : List StorageReservationRow → Volumes → Volumes
unfolding add_reserved
reserved_by_volume [] volumes = volumes
reserved_by_volume (row ∷ rows) volumes = reserved_by_volume rows (
    add_reserved row.target_volume row.target_bytes
      (add_reserved (some row.root_volume) row.root_bytes volumes))

-- The closure `addRequested`.
unfoldable pub add_requested : Option String → ℕ → Volumes → Volumes
unfolding add_bytes
add_requested none bytes volumes = volumes
add_requested (some v) bytes volumes = if v == "" then volumes else add_bytes v bytes volumes

-- Record<string, number | null>
unfoldable pub free_on : String → List (String × Option ℕ) → Option ℕ
free_on v [] = none
free_on v ((w, free) ∷ rest) = if w == v then free else free_on v rest

pub record Capacity : Type 0 where
  pub current_used_bytes : ℕ
  pub quota_bytes : ℕ
  pub minimum_free_bytes : ℕ
  pub free_bytes_by_volume : List (String × Option ℕ)

-- `free === null || free === undefined || free - reserved - requested < minimum_free_bytes`
lacks_space : Option ℕ → ℕ → ℕ → ℕ → Bool
lacks_space none reserved requested minimum = true
lacks_space (some free) reserved requested minimum = ltb free (minimum + reserved + requested)

-- The loop over the requested volumes: whether one of them has too little space.
unfoldable pub any_lacks_space : Volumes → Volumes → Capacity → Bool
unfolding lacks_space free_on bytes_on
any_lacks_space [] reserved capacity = false
any_lacks_space ((v, requested) ∷ rest) reserved capacity =
    lacks_space (free_on v capacity.free_bytes_by_volume) (bytes_on v reserved) requested
      capacity.minimum_free_bytes
    || any_lacks_space rest reserved capacity

unfoldable pub merge_volumes : Volumes → Volumes → Volumes
unfolding add_bytes
merge_volumes [] volumes = volumes
merge_volumes ((v, bytes) ∷ rest) volumes = merge_volumes rest (add_bytes v bytes volumes)

pub data Reason : Type 0 where
  quota free_space duplicate : Reason

pub record ReserveResult : Type 0 where
  pub accepted : Bool
  pub reserved_root_bytes : ℕ
  pub reserved_bytes_by_volume : Volumes
  pub reason : Option Reason

unfoldable pub same_reservation : StorageReservationRow → StorageReservationRow → Bool
same_reservation a b =
    (a.operation == b.operation)
    && (eqb a.root_bytes b.root_bytes
        && ((a.root_volume == b.root_volume)
            && (eqb a.target_bytes b.target_bytes && same_text a.target_volume b.target_volume)))

-- DELETE FROM storage_reservations WHERE expires_at <= ?
unfoldable pub delete_expired_storage_reservations : Time → Database → Database
delete_expired_storage_reservations now db = record db {
  storage_reservations = Table.delete (λ r. leb r.expires_at now) db.storage_reservations;
}

unfoldable pub requested_by_volume : StorageReservationRow → Volumes
unfolding add_requested
requested_by_volume r =
    add_requested r.target_volume r.target_bytes
      (add_requested (some r.root_volume) r.root_bytes [])

insert_reservation : StorageReservationRow → ReserveResult → Call ReserveResult
insert_reservation r result db = elim (Table.insert reservation_key r db.storage_reservations) [
  | none ↦ throw constraint_failed db
  | some rows ↦ pure result (record db { storage_reservations = rows })
]

-- The part of `tryReserveStorage` after the duplicate check.
unfoldable pub reserve_new : StorageReservationRow → Capacity → Call ReserveResult
unfolding insert_reservation reserved_by_volume any_lacks_space requested_by_volume merge_volumes
reserve_new r capacity db =
    let rows = db.storage_reservations in
    let root = sum_by (λ (row : StorageReservationRow). row.root_bytes) rows in
    let by_volume = reserved_by_volume rows [] in
    if ltb capacity.quota_bytes (capacity.current_used_bytes + root + r.root_bytes)
    then pure
        (record {
          accepted = false;
          reserved_root_bytes = root;
          reserved_bytes_by_volume = by_volume;
          reason = some quota;
        })
        db
    else if any_lacks_space (requested_by_volume r) by_volume capacity
    then pure
        (record {
          accepted = false;
          reserved_root_bytes = root;
          reserved_bytes_by_volume = by_volume;
          reason = some free_space;
        })
        db
    else insert_reservation r
        (record {
          accepted = true;
          reserved_root_bytes = root + r.root_bytes;
          reserved_bytes_by_volume = merge_volumes (requested_by_volume r) by_volume;
          reason = none;
        })
        db

-- The body of `tryReserveStorage` once the expired rows are gone.
unfoldable pub reserve_body : StorageReservationRow → Capacity → Call ReserveResult
unfolding reserve_new same_reservation
reserve_body r capacity db =
    elim (Table.find reservation_key r.reservation_id db.storage_reservations) [
      | none ↦ reserve_new r capacity db
      | some existing ↦
          pure
            (record {
              accepted = same_reservation existing r;
              reserved_root_bytes = 0;
              reserved_bytes_by_volume = [];
              reason = if same_reservation existing r then none else some duplicate;
            })
            db
    ]

-- `tryReserveStorage`, a transaction.
unfoldable pub try_reserve_storage : StorageReservationRow → Capacity → Call ReserveResult
unfolding reserve_body delete_expired_storage_reservations
try_reserve_storage r capacity db =
    commit_or_rollback db
      (reserve_body r capacity (delete_expired_storage_reservations r.created_at db)).0
      (reserve_body r capacity (delete_expired_storage_reservations r.created_at db)).1

unfoldable pub release_storage_reservation : String → Database → Database
release_storage_reservation id db = record db {
  storage_reservations = Table.delete (λ r. r.reservation_id == id) db.storage_reservations;
}

-- SELECT * ... ORDER BY created_at
unfoldable pub storage_reservations_by_age : Database → List StorageReservationRow
storage_reservations_by_age db =
    sort_by (λ a b. leb a.created_at b.created_at) db.storage_reservations
