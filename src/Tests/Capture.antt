-- ===== src/Tests/Capture.antt =====
-- A capture of concrete chunks.
use mira_bridge.Base.{flatten, ◌≤◌, ◌≡◌, List, [], ◌∷◌, length, leb, not, arith}
use mira_bridge.Capture.{Limits, Bytes, capture_bounded_stream}
use mira_bridge.Capture.Bounded.{bounded, capture_bounded_stream-bounded, stored_bytes-le-max}

abbrev small : Limits
small = record { max_bytes = 260; tail_bytes = 2 }

abbrev chunks : List Bytes
chunks = (1 ∷ 2 ∷ 3 ∷ []) ∷ (4 ∷ []) ∷ []

capture_bounded_stream-bounded_example :
    ((capture_bounded_stream (λ n. 7 ∷ []) small chunks).1
      ≡ bounded (λ n. 7 ∷ []) small (flatten chunks))
    × ((capture_bounded_stream (λ n. 7 ∷ []) small chunks).0.total_bytes ≡ length (flatten chunks))
    × ((capture_bounded_stream (λ n. 7 ∷ []) small chunks).0.storage_truncated
        ≡ not (leb (length (flatten chunks)) small.max_bytes))
capture_bounded_stream-bounded_example = capture_bounded_stream-bounded (λ n. 7 ∷ []) small chunks

stored_bytes-le-max_example :
    (capture_bounded_stream (λ n. 7 ∷ []) small chunks).0.stored_bytes ≤ 260
stored_bytes-le-max_example =
    stored_bytes-le-max (λ n. 7 ∷ []) small chunks (λ n. omega arith) (omega arith)
