-- ===== src/State/Requests/Admission.antt =====
-- What the request log promises: an identifier is reserved once, and a stored response comes back.
use mira_bridge.Base.{
  ℕ, ◌+◌, ◌≤◌, ◌≡◌, String, Bool, true, false, List, [], ◌∷◌, ◌==◌, ◌&&◌, arith, eq_iff,
  if◌then◌else◌, Result, ok, err, is_some,
}
use mira_bridge.Base.Table
use mira_bridge.State.Rows.{Database, Time, RpcResponse, StateError}
use mira_bridge.State.Requests.{
  RequestAdmission, complete, reserved, existing, get_request_tombstone, begin_request, put_request,
  delete_request, delete_request_tombstone, tombstone_key,
}

abbrev pub is_reserved : Result StateError RequestAdmission → Bool
is_reserved (ok reserved) = true
is_reserved (ok (complete row)) = false
is_reserved (ok (existing row)) = false
is_reserved (err e) = false

-- The calls that touch the request log.
pub data RequestCall : Type 0 where
  begins : String → String → String → Time → RequestCall
  puts : String → String → RpcResponse → String → Time → RequestCall
  forgets_response : String → RequestCall
  forgets_tombstone : String → RequestCall

unfoldable pub perform : RequestCall → Database → Database
perform (begins id hash operation now) db = (begin_request id hash operation now db).1
perform (puts id hash response operation now) db = (put_request id hash response operation now db).1
perform (forgets_response id) db = delete_request id db
perform (forgets_tombstone id) db = delete_request_tombstone id db

abbrev bit : Bool → ℕ
bit true = 1
bit false = 0

-- 1 when the call reserves `id`.
unfoldable pub reserves : String → RequestCall → Database → ℕ
reserves id (begins j hash operation now) db =
    bit ((j == id) && is_reserved (begin_request j hash operation now db).0)
reserves id (puts j hash response operation now) db = 0
reserves id (forgets_response j) db = 0
reserves id (forgets_tombstone j) db = 0

-- 1 when the call deletes the tombstone of `id`.
unfoldable pub forgets : String → RequestCall → ℕ
forgets id (forgets_tombstone j) = bit (j == id)
forgets id (begins j hash operation now) = 0
forgets id (puts j hash response operation now) = 0
forgets id (forgets_response j) = 0

unfoldable pub reservations : String → List RequestCall → Database → ℕ
unfolding reserves perform
reservations id [] db = 0
reservations id (c ∷ cs) db = reserves id c db + reservations id cs (perform c db)

unfoldable pub forgotten : String → List RequestCall → ℕ
unfolding forgets
forgotten id [] = 0
forgotten id (c ∷ cs) = forgets id c + forgotten id cs

-- 1 while `id` has no tombstone.
abbrev pub free : String → Database → ℕ
free id db = if is_some (get_request_tombstone id db) then 0 else 1

reserves-begins :
    (id j hash operation : String) (now : Time) (db : Database)
    → reserves id (begins j hash operation now) db
        + free id (perform (begins j hash operation now) db)
      ≤ free id db
unfolding reserves perform begin_request Table.find Table.insert
reserves-begins id j hash operation now db = ground (arith, eq_iff j id)

free-puts :
    (id j hash operation : String) (response : RpcResponse) (now : Time) (db : Database)
    → free id (perform (puts j hash response operation now) db) ≤ free id db
unfolding perform put_request get_request_tombstone
free-puts id j hash operation response now db = ground (
  arith,
  Table.find-replace tombstone_key
      (record { request_id = j; payload_hash = hash; operation = operation; created_at = now }) id
      db.request_tombstones,
)

free-forgets_tombstone :
    (id j : String) (db : Database)
    → free id (perform (forgets_tombstone j) db) ≤ free id db + forgets id (forgets_tombstone j)
unfolding perform delete_request_tombstone get_request_tombstone forgets
free-forgets_tombstone id j db =
    ground (arith, Table.find-delete tombstone_key j id db.request_tombstones)

pub step-reserves :
    (id : String) (c : RequestCall) (db : Database)
    → reserves id c db + free id (perform c db) ≤ free id db + forgets id c
unfolding forgets
step-reserves id (begins j hash operation now) db =
    omega (arith, reserves-begins id j hash operation now db)
step-reserves id (puts j hash response operation now) db =
    unfold reserves in omega (arith, free-puts id j hash operation response now db)
step-reserves id (forgets_response j) db =
    unfold reserves perform delete_request get_request_tombstone in omega arith
step-reserves id (forgets_tombstone j) db =
    unfold reserves in omega (arith, free-forgets_tombstone id j db)

-- Over any sequence of calls on any database, `begin_request` reserves an identifier at most as
-- often as retention deletes its tombstone, and once more if it has none at the start.
pub reservations-le-forgotten :
    (id : String) (calls : List RequestCall) (db : Database)
    → reservations id calls db
      ≤ (if is_some (get_request_tombstone id db) then 0 else 1) + forgotten id calls
unfolding reservations forgotten
reservations-le-forgotten id [] db = omega arith
reservations-le-forgotten id (c ∷ cs) db =
    omega (arith, step-reserves id c db, reservations-le-forgotten id cs (perform c db))

-- After `put_request`, admitting the same identifier again, under any payload and operation, gives
-- back exactly the stored row and changes nothing.
pub begin_request-put_request :
    (id hash operation hash' operation' : String) (response : RpcResponse) (now later : Time)
    (db : Database)
    → begin_request id hash' operation' later (put_request id hash response operation now db).1 ≡ (
      ok (
          complete (record {
            request_id = id;
            payload_hash = hash;
            response_json = response;
            created_at = now;
          })),
      (put_request id hash response operation now db).1,
    )
unfolding begin_request put_request Table.find Table.replace
begin_request-put_request id hash operation hash' operation' response now later db =
    ground (arith, eq_iff id id)

-- 1 or 0 by the conjunction that `reserves` tests.
pub reserves-begins_lem :
    (id j hash operation : String) (now : Time) (db : Database)
    → reserves id (begins j hash operation now) db
      ≡ (if (j == id) && is_reserved (begin_request j hash operation now db).0 then 1 else 0)
unfolding reserves
reserves-begins_lem id j hash operation now db = ground arith
