-- ===== src/Server/Replay.antt =====
-- What a repeated request is answered.
use mira_bridge.Base.{
  ◌≡◌, ◌∙◌, ap, String, Bool, false, Option, none, ◌==◌, arith, eq_iff, if◌then◌else◌, Result, ok,
}
use mira_bridge.Base.Json.{Fields}
use mira_bridge.Base.Table
use mira_bridge.Protocol.Errors.{Thrown}
use mira_bridge.State.Rows.{Database, Time, RpcResponse, RequestRow, StateError}
use mira_bridge.State.Requests.{RequestAdmission, complete, begin_request, put_request}
use mira_bridge.State.Requests.Admission.{begin_request-put_request}
use mira_bridge.Server.{
  RpcRequest, Server, Flight, Arrival, answers, arrive, finish, on_flight, on_admission,
  is_replay_safe, flight_key, response, error_payload, duplicate_error,
}

-- The answer to a request that reuses an identifier for another payload, or one whose response is
-- gone: the error `DUPLICATE_REQUEST_ID`.
abbrev pub refusal : RpcRequest → Time → Arrival
refusal request now =
    answers (response request.id (error_payload request.request_id now now duplicate_error))

-- A request with no flight is admitted by the database.
arrive-idle :
    (request : RpcRequest) (hash : String) (now : Time) (s : Server)
    (out : Result StateError RequestAdmission × Database)
    → Table.find flight_key request.request_id s.in_flight ≡ none
    → begin_request request.request_id hash request.operation now s.db ≡ out
    → arrive request hash now s ≡ on_admission request hash now out.0 (record s { db = out.1 })
unfolding arrive on_flight
arrive-idle request hash now s out idle begun = λ i.
    let step : Option Flight → Arrival × Server = λ o. on_flight request hash now o s in
    (ap step idle
        ∙ ap
            (λ (b : Result StateError RequestAdmission × Database).
              on_admission request hash now b.0 (record s { db = b.1 }))
            begun)
      i

on_admission-complete :
    (request : RpcRequest) (hash : String) (now : Time) (row : RequestRow) (s : Server)
    → on_admission request hash now (ok (complete row)) s ≡ (
      if row.payload_hash == hash
          then answers (response request.id row.response_json.payload)
          else refusal request now,
      s,
    )
unfolding on_admission
on_admission-complete request hash now row s = ground arith

finish-db :
    (flight : Flight) (outcome : Result Thrown Fields) (audit_failed : Bool) (now : Time)
    (s : Server)
    → is_replay_safe flight.request ≡ false
    → (finish flight outcome audit_failed now s).1.db
      ≡ (put_request flight.request.request_id flight.payload_hash
          (finish flight outcome audit_failed now s).0
          flight.request.operation
          now
          s.db).1
unfolding finish
finish-db flight outcome audit_failed now s once = rw once

finish-idle :
    (flight : Flight) (outcome : Result Thrown Fields) (audit_failed : Bool) (now : Time)
    (s : Server)
    → Table.find flight_key flight.request.request_id
        (finish flight outcome audit_failed now s).1.in_flight
      ≡ none
unfolding finish
finish-idle flight outcome audit_failed now s = ground (
  arith,
  Table.find-delete flight_key flight.request.request_id flight.request.request_id s.in_flight,
  eq_iff flight.request.request_id flight.request.request_id,
)

-- After a flight has settled whose operation is not `transfer_read_chunk`, the same identifier with
-- the same payload is answered with the stored payload under the new call's id, and with another
-- payload it is refused; nothing is executed and the server stays as it is.
pub arrive-finish :
    (flight : Flight) (outcome : Result Thrown Fields) (audit_failed : Bool) (now later : Time)
    (request : RpcRequest) (hash : String) (s : Server)
    → is_replay_safe flight.request ≡ false
    → request.request_id ≡ flight.request.request_id
    → let (answer, after) = finish flight outcome audit_failed now s in
      arrive request hash later after ≡ (
        if flight.payload_hash == hash
            then answers (response request.id answer.payload)
            else refusal request later,
        after,
      )
arrive-finish flight outcome audit_failed now later request hash s once same =
    let j : String = flight.request.request_id in
    let answer : RpcResponse = (finish flight outcome audit_failed now s).0 in
    let after : Server = (finish flight outcome audit_failed now s).1 in
    let row : RequestRow = record {
      request_id = j;
      payload_hash = flight.payload_hash;
      response_json = answer;
      created_at = now;
    } in
    let begun : begin_request request.request_id hash request.operation later after.db
        ≡ (ok (complete row), after.db) =
      rw (finish-db flight outcome audit_failed now s once, same)
        (begin_request-put_request j flight.payload_hash flight.request.operation hash
          request.operation answer now later s.db) in
    arrive-idle request hash later after (ok (complete row), after.db)
      (rw same (finish-idle flight outcome audit_failed now s)) begun
    ∙ on_admission-complete request hash later row after
