-- ===== src/Tests/Requests.antt =====
-- The request log and the server on concrete requests.
use mira_bridge.Base.{◌+◌, ◌≤◌, ◌≡◌, refl, false, List, [], ◌∷◌, ok}
use mira_bridge.Base.Json
use mira_bridge.Base.Table
use mira_bridge.State.Rows.{empty}
use mira_bridge.State.Requests.{complete, begin_request, put_request, get_request_tombstone}
use mira_bridge.State.Requests.Admission.{
  begins, puts, forgets_tombstone, reservations, reservations-le-forgotten,
  begin_request-put_request, RequestCall,
}
use mira_bridge.Server.{RpcRequest, Server, Flight, answers, arrive, finish, response}
use mira_bridge.Server.AtMostOnce.{
  Event, arrives, settles, restarts, prunes_tombstone, executions, run, executions-run,
}
use mira_bridge.Server.Replay.{arrive-finish}
use mira_bridge.Tests.Samples.{reply}

abbrev calls : List RequestCall
calls =
    begins "r" "h" "stat" 1
    ∷ begins "r" "h" "stat" 2
    ∷ forgets_tombstone "r"
    ∷ begins "r" "h" "stat" 3
    ∷ []

reservations-le-forgotten_example : reservations "r" calls empty ≤ 1 + 1
unfolding Table.find mira_bridge.State.Requests.get_request_tombstone
    mira_bridge.State.Requests.Admission.forgotten
reservations-le-forgotten_example = reservations-le-forgotten "r" calls empty

begin_request-put_request_example :
    begin_request "r" "other" "glob" 9 (put_request "r" "h" reply "stat" 4 empty).1 ≡ (
      ok (
          complete (record {
            request_id = "r";
            payload_hash = "h";
            response_json = reply;
            created_at = 4;
          })),
      (put_request "r" "h" reply "stat" 4 empty).1,
    )
begin_request-put_request_example =
    begin_request-put_request "r" "h" "stat" "other" "glob" reply 4 9 empty

abbrev ask : RpcRequest
ask = record {
  id = "7";
  protocol_major = "2";
  request_id = "r";
  node_id = "pc";
  operation = "start_job";
  arguments = Json.null;
}

abbrev idle : Server
idle = record { db = empty; in_flight = []; executed = [] }

abbrev flight : Flight
flight = record { payload_hash = "h"; request = ask; started = 1 }

-- The same request arrives twice, the worker restarts, and the request comes again.
executions-run_example :
    executions "r"
      (run (arrives ask "h" 1 ∷ arrives ask "h" 2 ∷ restarts ∷ arrives ask "h" 3 ∷ []) idle)
    ≤ 0 + 1 + 0
unfolding Table.find mira_bridge.State.Requests.get_request_tombstone
    mira_bridge.Server.AtMostOnce.tombstones_pruned
executions-run_example =
    executions-run "r" (arrives ask "h" 1 ∷ arrives ask "h" 2 ∷ restarts ∷ arrives ask "h" 3 ∷ [])
      idle

arrive-finish_example : arrive ask "h" 9 (finish flight (ok Json.end) false 4 idle).1 ≡ (
  answers (response "7" (finish flight (ok Json.end) false 4 idle).0.payload),
  (finish flight (ok Json.end) false 4 idle).1,
)
arrive-finish_example = arrive-finish flight (ok Json.end) false 4 9 ask "h" idle refl refl
