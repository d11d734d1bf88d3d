-- ===== src/Server/AtMostOnce.antt =====
-- An operation runs at most once for a request identifier.
use mira_bridge.Base.{
  ℕ, ◌+◌, ◌≤◌, ◌≡◌, refl, String, Bool, Option, none, some, List, [], ◌∷◌, ◌==◌, ◌&&◌, not, arith,
  if◌then◌else◌, Result, is_some, count_by, Bool-cases, inl, inr,
}
use mira_bridge.Base.Json.{Fields}
use mira_bridge.Base.Table
use mira_bridge.Protocol.Errors.{Thrown}
use mira_bridge.State.Rows.{Database, Time, StateError}
use mira_bridge.State.Requests.{
  RequestAdmission, begin_request, get_request_tombstone, delete_request, delete_request_tombstone,
}
use mira_bridge.State.Requests.Admission.{
  RequestCall, begins, puts, forgets_response, forgets_tombstone, perform, reserves, forgets,
  step-reserves, reserves-begins_lem, free, is_reserved,
}
use mira_bridge.Server.{
  RpcRequest, Server, Flight, arrive, finish, on_flight, on_admission, is_replay_safe, flight_key,
}

-- What can happen to a server: a request arrives, a flight settles, retention deletes a response or
-- a tombstone, or the worker restarts and forgets its flights.
pub data Event : Type 0 where
  arrives : RpcRequest → String → Time → Event
  settles : Flight → Result Thrown Fields → Bool → Time → Event
  prunes_response : String → Event
  prunes_tombstone : String → Event
  restarts : Event

unfoldable pub step : Event → Server → Server
step (arrives request hash now) s = (arrive request hash now s).1
step (settles flight outcome audit_failed now) s = (finish flight outcome audit_failed now s).1
step (prunes_response id) s = record s { db = delete_request id s.db }
step (prunes_tombstone id) s = record s { db = delete_request_tombstone id s.db }
step restarts s = record s { in_flight = [] }

unfoldable pub run : List Event → Server → Server
unfolding step
run [] s = s
run (e ∷ es) s = run es (step e s)

-- An execution for `id` of an operation that is not replay-safe.
abbrev pub executes : String → RpcRequest → Bool
executes id request = (request.request_id == id) && not (is_replay_safe request)

abbrev pub executions : String → Server → ℕ
executions id s = count_by (executes id) s.executed

-- How often retention deletes the tombstone of `id`.
unfoldable pub tombstones_pruned : String → List Event → ℕ
tombstones_pruned id [] = 0
tombstones_pruned id (prunes_tombstone j ∷ es) =
    (if j == id then 1 else 0) + tombstones_pruned id es
tombstones_pruned id (arrives request hash now ∷ es) = tombstones_pruned id es
tombstones_pruned id (settles flight outcome audit_failed now ∷ es) = tombstones_pruned id es
tombstones_pruned id (prunes_response j ∷ es) = tombstones_pruned id es
tombstones_pruned id (restarts ∷ es) = tombstones_pruned id es

-- The request runs only when its identifier has just been reserved, or its operation may repeat.
executions-on_admission :
    (id : String) (request : RpcRequest) (hash : String) (now : Time)
    (r : Result StateError RequestAdmission) (s : Server)
    → executions id (on_admission request hash now r s).1
      ≤ executions id s + (if (request.request_id == id) && is_reserved r then 1 else 0)
unfolding on_admission
executions-on_admission id request hash now r s = ground arith

db-on_admission :
    (request : RpcRequest) (hash : String) (now : Time) (r : Result StateError RequestAdmission)
    (s : Server)
    → (on_admission request hash now r s).1.db ≡ s.db
unfolding on_admission
db-on_admission request hash now r s = ground arith

on_flight-executions :
    (id : String) (request : RpcRequest) (hash : String) (now : Time) (o : Option Flight)
    (s : Server)
    → executions id (on_flight request hash now o s).1
        + free id (on_flight request hash now o s).1.db
      ≤ executions id s + free id s.db
unfolding on_flight
on_flight-executions id request hash now (some flight) s = ground arith
on_flight-executions id request hash now none s =
    let j : String = request.request_id in
    let call : RequestCall = begins j hash request.operation now in
    let begun : Result StateError RequestAdmission × Database =
      begin_request j hash request.operation now s.db in
    rw (db-on_admission request hash now begun.0 (record s { db = begun.1 })) (
      unfold perform forgets in
      omega (
        arith,
        executions-on_admission id request hash now begun.0 (record s { db = begun.1 }),
        step-reserves id call s.db,
        reserves-begins_lem id j hash request.operation now s.db,
      ))

finish-free :
    (id : String) (flight : Flight) (outcome : Result Thrown Fields) (audit_failed : Bool)
    (now : Time) (s : Server)
    → free id (finish flight outcome audit_failed now s).1.db ≤ free id s.db
unfolding finish
finish-free id flight outcome audit_failed now s =
    elim (Bool-cases (is_replay_safe flight.request)) [
      | inl e ↦ rw e (omega arith)
      | inr e ↦ rw e (
          unfold reserves perform forgets in
          omega (
            arith,
            step-reserves id
                (puts flight.request.request_id flight.payload_hash
                  (finish flight outcome audit_failed now s).0 flight.request.operation now)
                s.db,
          ))
    ]

finish-executed :
    (id : String) (flight : Flight) (outcome : Result Thrown Fields) (audit_failed : Bool)
    (now : Time) (s : Server)
    → executions id (finish flight outcome audit_failed now s).1 ≡ executions id s
unfolding finish
finish-executed id flight outcome audit_failed now s = refl

-- Each event pays for the execution that it starts.
step-executions :
    (id : String) (e : Event) (s : Server)
    → executions id (step e s) + free id (step e s).db
      ≤ executions id s + free id s.db + tombstones_pruned id (e ∷ [])
unfolding step tombstones_pruned
step-executions id (arrives request hash now) s =
    unfold arrive in
    omega (
      arith,
      on_flight-executions id request hash now
          (Table.find flight_key request.request_id s.in_flight) s,
    )
step-executions id (settles flight outcome audit_failed now) s = omega (
  arith,
  finish-free id flight outcome audit_failed now s,
  finish-executed id flight outcome audit_failed now s,
)
step-executions id (prunes_response j) s =
    unfold reserves perform forgets in omega (arith, step-reserves id (forgets_response j) s.db)
step-executions id (prunes_tombstone j) s =
    unfold reserves perform forgets in ground (arith, step-reserves id (forgets_tombstone j) s.db)
step-executions id restarts s = omega arith

tombstones_pruned-cons :
    (id : String) (e : Event) (es : List Event)
    → tombstones_pruned id (e ∷ es) ≡ tombstones_pruned id (e ∷ []) + tombstones_pruned id es
unfolding tombstones_pruned
tombstones_pruned-cons id (prunes_tombstone j) es = omega arith
tombstones_pruned-cons id _ es = omega arith

executions-free :
    (id : String) (es : List Event) (s : Server)
    → executions id (run es s) ≤ executions id s + free id s.db + tombstones_pruned id es
unfolding run
executions-free id [] s = unfold tombstones_pruned in omega arith
executions-free id (e ∷ es) s = omega (
  arith,
  step-executions id e s,
  tombstones_pruned-cons id e es,
  executions-free id es (step e s),
)

-- Whatever requests arrive and settle in whatever order, with retention and restarts between them,
-- the operations executed for one request identifier, those of `transfer_read_chunk` aside, are at
-- most one when the identifier is new, none when it has a tombstone, and one more for each time that
-- retention deletes that tombstone.
pub executions-run :
    (id : String) (events : List Event) (s : Server)
    → executions id (run events s)
      ≤ executions id s
        + (if is_some (get_request_tombstone id s.db) then 0 else 1)
        + tombstones_pruned id events
executions-run id events s = executions-free id events s
