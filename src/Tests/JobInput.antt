-- ===== src/Tests/JobInput.antt =====
-- Runs of the input channel of a Job: data before the attachment, data after it and a close.
use mira_bridge.Base.{◌≡◌, refl, true, false, List, [], ◌∷◌, All, arith}
use mira_bridge.JobInput.{check_input, Channel, writes, closes, listening}
use mira_bridge.JobInput.Delivery.{Event, message, attachment, delivered, step, run}
use mira_bridge.JobInput.Content.{content, accepted_by}
use mira_bridge.JobInput.Fifo.{Succeeds, run-content}
use mira_bridge.JobInput.Limits.{Bounded, run-Bounded}
use mira_bridge.JobInput.Closing.{closed_accepts_nothing}
use mira_bridge.JobInput.Overtaking.{input_message, overtaking, close_overtakes}

abbrev some_requests : List Event
some_requests =
    message (input_message (1 ∷ 2 ∷ []) false)
    ∷ message (input_message (3 ∷ []) false)
    ∷ attachment false
    ∷ delivered
    ∷ message (input_message (4 ∷ []) true)
    ∷ []

abbrev after_requests : Channel
after_requests = run some_requests (listening false)

accepted_four : accepted_by some_requests (listening false) ≡ 1 ∷ 2 ∷ 3 ∷ 4 ∷ []
unfolding accepted_by check_input step
accepted_four = refl

some_requests-Succeeds : All Succeeds some_requests
some_requests-Succeeds = (tt, (tt, (tt, (tt, (tt, tt)))))

run-content_example : content after_requests ≡ accepted_by some_requests (listening false)
run-content_example = run-content false some_requests some_requests-Succeeds

run-Bounded_example : Bounded after_requests
run-Bounded_example = run-Bounded false some_requests

abbrev closed : Channel
closed = run (message (input_message (4 ∷ []) true) ∷ []) (listening false)

closed_accepts_nothing_example : accepted_by some_requests closed ≡ []
unfolding run
closed_accepts_nothing_example = closed_accepts_nothing some_requests closed refl

close_overtakes_example :
    (run (overtaking 1 (2 ∷ []) 3 []) (listening false)).output
    ≡ writes (1 ∷ 2 ∷ []) ∷ closes ∷ writes (3 ∷ []) ∷ []
close_overtakes_example = close_overtakes 1 (2 ∷ []) 3 [] (omega arith) (omega arith)
