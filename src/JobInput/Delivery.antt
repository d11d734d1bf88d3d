-- ===== src/JobInput/Delivery.antt =====
-- The chain of deliveries of a Job's input channel, and runs of the channel: every interleaving of
-- requests, the attachment and the turns of the chain is a list of events.
use mira_bridge.Base.{
  not, Bool, true, Option, none, some, List, [], ◌∷◌, ◌++◌, ◌&&◌, length, if◌then◌else◌, Result, ok,
  err,
}
use mira_bridge.Protocol.Errors.{BridgeError, Thrown, as_bridge_error}
use mira_bridge.JobInput.{
  Message, Reply, wrote, resized, refused, Output, writes, closes, resizes, Effect, write,
  close_input, resize, flush, flush_end, Channel, reply, after_data, receive, attach,
}

-- Every effect that waits behind a rejected one fails with its error; an attachment has no request.
unfoldable pub refuse_waiting : BridgeError → List Effect → List Reply
refuse_waiting e [] = []
refuse_waiting e (flush chunks ∷ rest) = refuse_waiting e rest
refuse_waiting e (flush_end ∷ rest) = refuse_waiting e rest
refuse_waiting e (_ ∷ rest) = refused e ∷ refuse_waiting e rest

-- The effect at the head of the chain has thrown.
unfoldable pub reject : Thrown → List Effect → Channel → Channel
unfolding refuse_waiting
reject e effects c = record c {
  delivery = [];
  failed = some e;
  replies = c.replies ++ refuse_waiting (as_bridge_error e) effects;
}

abbrev pub emit : Output → Channel → Channel
emit o c = record c { output = c.output ++ o ∷ [] }

-- The attachment's effect catches what its target throws.
abbrev pub give_up : List Effect → Channel → Channel
give_up rest c = record c { delivery = rest; target_error = true }

abbrev pub caught : Option Thrown → Channel → Channel → Channel
caught none failure success = success
caught (some e) failure success = failure

-- One call of the target by the effect at the head, and what follows it up to the next call. The
-- first argument is what the call throws; an effect that makes no call does not read it.
unfoldable pub turn : Option Thrown → List Effect → Channel → Channel
unfolding after_data reject
turn thrown [] c = c
turn none (write bytes closing ∷ rest) c =
    after_data (length bytes) closing (emit (writes bytes) (record c { delivery = rest }))
turn none (close_input count ∷ rest) c =
    reply (wrote count c.input_closed) (emit closes (record c { delivery = rest }))
turn none (resize cols rows ∷ rest) c =
    reply (resized cols rows) (emit (resizes cols rows) (record c { delivery = rest }))
turn (some e) (write bytes closing ∷ rest) c = reject e (write bytes closing ∷ rest) c
turn (some e) (close_input count ∷ rest) c = reject e (close_input count ∷ rest) c
turn (some e) (resize cols rows ∷ rest) c = reject e (resize cols rows ∷ rest) c
turn thrown (flush (chunk ∷ chunks) ∷ rest) c =
    caught thrown (give_up rest c)
      (emit (writes chunk) (record c { delivery = flush chunks ∷ rest }))
turn thrown (flush [] ∷ rest) c = elim c.pending_resize [
  | none ↦ record c { delivery = flush_end ∷ rest }
  | some size ↦
      if c.terminal
      then caught thrown (give_up rest c)
          (emit (resizes size.0 size.1) (record c { delivery = flush_end ∷ rest }))
      else record c { delivery = flush_end ∷ rest }
]
turn thrown (flush_end ∷ rest) c =
    if c.input_closed
    then caught thrown (give_up rest c) (emit closes (record c { delivery = rest }))
    else record c { delivery = rest }

unfoldable pub deliver : Option Thrown → Channel → Channel
unfolding turn
deliver thrown c = turn thrown c.delivery c

pub data Event : Type 0 where
  message : Message → Event
  attachment : Bool → Event
  delivered : Event
  thrown : Thrown → Event
  stream_error : Event

unfoldable pub attached_or_same : Channel → Result BridgeError Channel → Channel
attached_or_same c (ok c') = c'
attached_or_same c (err e) = c

unfoldable pub step : Event → Channel → Channel
unfolding attached_or_same deliver receive attach
step (message m) c = receive m c
step (attachment for_terminal) c = attached_or_same c (attach for_terminal c)
step delivered c = deliver none c
step (thrown e) c = deliver (some e) c
step stream_error c = if c.attached && not c.terminal then record c { target_error = true } else c

unfoldable pub run : List Event → Channel → Channel
unfolding step
run [] c = c
run (e ∷ es) c = run es (step e c)
