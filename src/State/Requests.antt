-- ===== src/State/Requests.antt =====
-- The request log of packages/windows-worker/src/state.ts: responses, and the tombstones that
-- outlive them.
pub mod Admission
use mira_bridge.Base.{
  ℕ, String, Bool, Option, none, some, List, ◌==◌, Exec, pure, gets, modify, throw, continue, ◌>>=◌,
  ◌>>◌, transaction, filter_by, map, ltb, leb, sort_by,
}
use mira_bridge.Base.Table
use mira_bridge.State.Rows.{
  RequestRow, TombstoneRow, Database, Call, StateError, constraint_failed, Time, RpcResponse,
}

abbrev pub request_key : RequestRow → String
request_key r = r.request_id

abbrev pub tombstone_key : TombstoneRow → String
tombstone_key r = r.request_id

pub data RequestAdmission : Type 0 where
  complete : RequestRow → RequestAdmission
  reserved : RequestAdmission
  existing : TombstoneRow → RequestAdmission

unfoldable pub get_request : String → Database → Option RequestRow
get_request id db = Table.find request_key id db.requests

unfoldable pub get_request_tombstone : String → Database → Option TombstoneRow
get_request_tombstone id db = Table.find tombstone_key id db.request_tombstones

insert_tombstone : TombstoneRow → Call (Unit {0})
insert_tombstone row db = elim (Table.insert tombstone_key row db.request_tombstones) [
  | none ↦ throw constraint_failed db
  | some rows ↦ pure tt (record db { request_tombstones = rows })
]

reserve : Option TombstoneRow → TombstoneRow → Call RequestAdmission
unfolding insert_tombstone
reserve (some row) fresh = pure (existing row)
reserve none fresh = do insert_tombstone fresh; pure reserved

admit : Option RequestRow → Option TombstoneRow → TombstoneRow → Call RequestAdmission
unfolding reserve
admit (some row) tombstone fresh = pure (complete row)
admit none tombstone fresh = reserve tombstone fresh

unfoldable pub begin_request : String → String → String → Time → Call RequestAdmission
unfolding admit get_request get_request_tombstone
begin_request request_id payload_hash operation now = transaction (do
  response ← gets (get_request request_id)
  tombstone ← gets (get_request_tombstone request_id)
  admit response tombstone (record {
    request_id = request_id;
    payload_hash = payload_hash;
    operation = operation;
    created_at = now;
  }))

unfoldable pub put_request : String → String → RpcResponse → String → Time → Call (Unit {0})
put_request request_id payload_hash response_json operation now = transaction (do
  modify (λ db. record db {
    requests =
        Table.replace request_key
          (record {
            request_id = request_id;
            payload_hash = payload_hash;
            response_json = response_json;
            created_at = now;
          })
          db.requests;
  })
  modify (λ db. record db {
    request_tombstones =
        Table.replace tombstone_key
          (record {
            request_id = request_id;
            payload_hash = payload_hash;
            operation = operation;
            created_at = now;
          })
          db.request_tombstones;
  }))

-- SELECT request_id ... WHERE created_at < cutoff ORDER BY created_at
unfoldable pub expired_requests : Time → Database → List String
expired_requests cutoff db = map request_key (
    sort_by (λ a b. leb a.created_at b.created_at)
      (filter_by (λ r. ltb r.created_at cutoff) db.requests))

unfoldable pub delete_request : String → Database → Database
delete_request id db = record db { requests = Table.delete (λ r. r.request_id == id) db.requests }

unfoldable pub expired_request_tombstones : Time → Database → List String
expired_request_tombstones cutoff db = map tombstone_key (
    sort_by (λ a b. leb a.created_at b.created_at)
      (filter_by (λ r. ltb r.created_at cutoff) db.request_tombstones))

unfoldable pub delete_request_tombstone : String → Database → Database
delete_request_tombstone id db = record db {
  request_tombstones = Table.delete (λ r. r.request_id == id) db.request_tombstones;
}
