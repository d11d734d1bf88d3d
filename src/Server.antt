-- ===== src/Server.antt =====
-- plugins/mira-bridge/packages/windows-worker/src/stdio-server.ts: the worker's JSON-RPC server.
-- JavaScript runs a call of `handle` without a break up to its first `await`, and the rest once the
-- operation and the audit write have settled: so a request is an `arrive` and a later `finish`.
-- The operation's outcome, the audit's and the clock are inputs of the steps; the hash of a payload
-- is a parameter. `executed` lists the calls of `runtime.execute`, newest first.
pub mod AtMostOnce
pub mod Replay
use mira_bridge.Base.{
  ℕ, ◌-◌, String, Bool, true, false, Option, none, some, List, [], ◌∷◌, ◌==◌, ◌&&◌, not,
  if◌then◌else◌, or_default, max, Result, ok, err,
}
use mira_bridge.Base.Json.{Json, obj, str, Fields, field, end, lookup_field}
use mira_bridge.Base.Table
use mira_bridge.Protocol.Errors.{
  BridgeError, Thrown, bridge_error, other, schema, invalid_argument, duplicate_request_id,
  protocol_mismatch, as_bridge_error, bridge,
}
use mira_bridge.State.Rows.{
  Database, Time, RpcPayload, RpcResponse, StateError, RequestRow, TombstoneRow,
}
use mira_bridge.State.Requests.{
  RequestAdmission, complete, reserved, existing, begin_request, put_request,
}

-- `RpcRequest`: `protocol_major` is the text before the first dot of `protocol_version`.
pub record RpcRequest : Type 0 where
  pub id : String
  pub protocol_major : String
  pub request_id : String
  pub node_id : String
  pub operation : String
  pub arguments : Json

-- An entry of `inFlight`: the request whose response is awaited.
pub record Flight : Type 0 where
  pub payload_hash : String
  pub request : RpcRequest
  pub started : Time

pub record Server : Type 0 where
  pub db : Database
  pub in_flight : List Flight
  pub executed : List RpcRequest

abbrev pub flight_key : Flight → String
flight_key f = f.request.request_id

-- The error of `errorPayload`: a `ZodError` is an invalid argument.
reported : Thrown → BridgeError
unfolding as_bridge_error
reported schema = bridge_error invalid_argument none
reported (bridge e) = as_bridge_error (bridge e)
reported (other code) = as_bridge_error (other code)

-- `errorPayload`
unfoldable pub error_payload : String → Time → Time → Thrown → RpcPayload
unfolding reported
error_payload request_id started now error = record {
  request_id = request_id;
  ok = false;
  result = none;
  error = some (reported error);
  audit_warning = false;
  duration_ms = now - started;
}

drop_field : String → Fields → Fields
drop_field k end = end
drop_field k (field j v fs) = let rest = drop_field k fs in if j == k then rest else field j v rest

-- { request_id: ..., ...result }: a field of that name in the result comes last.
with_request_id : String → Fields → Json
unfolding lookup_field drop_field
with_request_id request_id result = obj (
    field "request_id" (or_default (lookup_field "request_id" result) (str request_id))
      (drop_field "request_id" result))

unfoldable pub success_payload : String → Time → Time → Fields → RpcPayload
unfolding with_request_id
success_payload request_id started now result = record {
  request_id = request_id;
  ok = true;
  result = some (with_request_id request_id result);
  error = none;
  audit_warning = false;
  duration_ms = now - started;
}

abbrev pub response : String → RpcPayload → RpcResponse
response id payload = record { id = id; payload = payload }

abbrev pub duplicate_error : Thrown
duplicate_error = bridge (bridge_error duplicate_request_id none)

duplicate_response : RpcRequest → Time → RpcResponse
unfolding error_payload
duplicate_response request now =
    response request.id (error_payload request.request_id now now duplicate_error)

abbrev pub is_replay_safe : RpcRequest → Bool
is_replay_safe request = request.operation == "transfer_read_chunk"

-- How a request goes on after its synchronous part: it has an answer, it waits for the flight that
-- has the same identifier, or it has become a flight.
pub data Arrival : Type 0 where
  answers : RpcResponse → Arrival
  joins : Flight → Arrival
  starts : Arrival
  fails : StateError → Arrival

-- The admitted request: `runtime.execute` is called unless the protocol's major version differs.
start_flight : RpcRequest → String → Time → Server → Arrival × Server
start_flight request hash now s = (
  starts,
  record s {
    in_flight = record { payload_hash = hash; request = request; started = now } ∷ s.in_flight;
    executed = if request.protocol_major == "2" then request ∷ s.executed else s.executed;
  },
)

-- The branches of `handleParsed` on the admission.
unfoldable pub on_admission :
    RpcRequest → String → Time → Result StateError RequestAdmission → Server → Arrival × Server
unfolding start_flight duplicate_response
on_admission request hash now (ok (complete row)) s =
    if not (row.payload_hash == hash)
    then (answers (duplicate_response request now), s)
    else (answers (response request.id row.response_json.payload), s)
on_admission request hash now (ok (existing row)) s =
    if not (
      is_replay_safe request
      && ((row.payload_hash == hash) && (row.operation == request.operation)))
    then (answers (duplicate_response request now), s)
    else start_flight request hash now s
on_admission request hash now (ok reserved) s = start_flight request hash now s
on_admission request hash now (err e) s = (fails e, s)

-- The branches of `handle` on the entry of `inFlight`.
unfoldable pub on_flight : RpcRequest → String → Time → Option Flight → Server → Arrival × Server
unfolding on_admission
on_flight request hash now (some flight) s =
    if not (flight.payload_hash == hash)
    then (answers (duplicate_response request now), s)
    else (joins flight, s)
on_flight request hash now none s =
    on_admission request hash now
      (begin_request request.request_id hash request.operation now s.db).0
      (record s { db = (begin_request request.request_id hash request.operation now s.db).1 })

-- `handle` up to its first `await`, on a request that its schema accepts.
unfoldable pub arrive : RpcRequest → String → Time → Server → Arrival × Server
unfolding on_flight
arrive request hash now s =
    on_flight request hash now (Table.find flight_key request.request_id s.in_flight) s

-- The payload once the operation has settled.
settled : Flight → Time → Result Thrown Fields → RpcPayload
unfolding error_payload success_payload
settled flight now outcome =
    if flight.request.protocol_major == "2"
    then elim outcome [
      | ok result ↦ success_payload flight.request.request_id flight.started now result
      | err e ↦ error_payload flight.request.request_id flight.started now e
    ]
    else error_payload flight.request.request_id flight.started now
        (bridge (bridge_error protocol_mismatch none))

with_audit : Bool → RpcPayload → RpcPayload
with_audit failed payload = record payload { audit_warning = failed }

-- The rest of `handleParsed`, and the `finally` of `handle`.
unfoldable pub finish : Flight → Result Thrown Fields → Bool → Time → Server → RpcResponse × Server
unfolding settled with_audit
finish flight outcome audit_failed now s =
    let answer =
      response flight.request.id (with_audit audit_failed (settled flight now outcome)) in
    (
      answer,
      record s {
        db =
            if is_replay_safe flight.request
            then s.db
            else (put_request flight.request.request_id flight.payload_hash answer
                flight.request.operation now s.db).1;
        in_flight = Table.delete (λ f. flight_key f == flight.request.request_id) s.in_flight;
      },
    )

-- What a request that joined a flight is answered.
abbrev pub joined_response : RpcRequest → RpcResponse → RpcResponse
joined_response request answer = response request.id answer.payload
