-- ===== src/JobInput/Closing.antt =====
-- A closed input stays closed, through failures of the target too.
use mira_bridge.Base.{
  ℕ, ◌+◌, ◌≡◌, refl, Bool, true, Option, none, some, List, [], ◌∷◌, ◌++◌, length, Result, ok, err,
  arith,
}
use mira_bridge.Protocol.Errors.{BridgeError, Thrown}
use mira_bridge.JobInput.{
  Bytes, writes, Effect, write, close_input, resize, flush, flush_end, Channel, enqueue,
  check_input, check_size, on_size, on_input, after_data, receive, attach,
}
use mira_bridge.JobInput.Delivery.{
  emit, turn, deliver, reject, Event, message, attachment, delivered, thrown, stream_error, step,
  attached_or_same,
}
use mira_bridge.JobInput.Content.{accepted, accepted_by, taken}
use mira_bridge.JobInput.Limits.{Admissible, check_input-Admissible}

closed-enqueue :
    (e : Effect) (c : Channel) → c.input_closed ≡ true → (enqueue e c).input_closed ≡ true
unfolding enqueue
closed-enqueue e c h = ground (arith, h)

closed-after_data :
    (n : ℕ) (closing : Bool) (c : Channel)
    → c.input_closed ≡ true
    → (after_data n closing c).input_closed ≡ true
unfolding after_data
closed-after_data n closing c h =
    ground (arith, h, closed-enqueue (close_input n) (record c { input_closed = true }) refl)

closed-turn :
    (t : Option Thrown) (es : List Effect) (c : Channel)
    → c.input_closed ≡ true
    → (turn t es c).input_closed ≡ true
unfolding turn reject
closed-turn t [] c h = h
closed-turn none (write bytes closing ∷ es) c h =
    closed-after_data (length bytes) closing (emit (writes bytes) (record c { delivery = es })) h
closed-turn none (close_input n ∷ es) c h = h
closed-turn none (resize x y ∷ es) c h = h
closed-turn (some e) (write bytes closing ∷ es) c h = h
closed-turn (some e) (close_input n ∷ es) c h = h
closed-turn (some e) (resize x y ∷ es) c h = h
closed-turn none (flush (chunk ∷ chunks) ∷ es) c h = h
closed-turn (some e) (flush (chunk ∷ chunks) ∷ es) c h = h
closed-turn none (flush [] ∷ es) c h = ground (arith, h)
closed-turn (some e) (flush [] ∷ es) c h = ground (arith, h)
closed-turn none (flush_end ∷ es) c h = ground (arith, h)
closed-turn (some e) (flush_end ∷ es) c h = ground (arith, h)

closed-on_size :
    (r : Result BridgeError (ℕ × ℕ)) (c : Channel)
    → c.input_closed ≡ true
    → (on_size r c).input_closed ≡ true
unfolding on_size
closed-on_size (err e) c h = h
closed-on_size (ok size) c h = ground (arith, h, closed-enqueue (resize size.0 size.1) c h)

closed-on_input :
    (r : Result BridgeError (Bytes × Bool)) (c : Channel)
    → c.input_closed ≡ true
    → (on_input r c).input_closed ≡ true
unfolding on_input
closed-on_input (err e) c h = h
closed-on_input (ok ([], closing)) c h = closed-after_data 0 closing c h
closed-on_input (ok ((x ∷ xs), closing)) c h = ground (
  arith,
  h,
  closed-enqueue (write (x ∷ xs) closing) c h,
  closed-after_data (length (x ∷ xs)) closing
      (record c {
        buffered = c.buffered ++ (x ∷ xs) ∷ [];
        buffered_bytes = c.buffered_bytes + length (x ∷ xs);
      })
      h,
)

closed-step : (e : Event) (c : Channel) → c.input_closed ≡ true → (step e c).input_closed ≡ true
unfolding step deliver receive attach attached_or_same
closed-step (message m) c h = ground (
  arith,
  closed-on_size (check_size c.terminal m.cols m.rows) c h,
  closed-on_input (check_input m c) c h,
)
closed-step (attachment for_terminal) c h = ground (
  arith,
  h,
  closed-enqueue (flush c.buffered)
      (record c { attached = true; buffered = []; buffered_bytes = 0 }) h,
)
closed-step delivered c h = closed-turn none c.delivery c h
closed-step (thrown e) c h = closed-turn (some e) c.delivery c h
closed-step stream_error c h = ground (arith, h)

-- What is admissible in a channel with a closed input is a refusal.
closed-taken :
    (r : Result BridgeError (Bytes × Bool)) (c : Channel)
    → c.input_closed ≡ true
    → Admissible c r
    → taken r ≡ []
unfolding taken Admissible
closed-taken (err e) c h a = refl
closed-taken (ok request) c h a = absurd (cc (h, a.1))

closed-accepted : (e : Event) (c : Channel) → c.input_closed ≡ true → accepted e c ≡ []
unfolding accepted
closed-accepted (message m) c h =
    ground (arith, closed-taken (check_input m c) c h (check_input-Admissible m c))
closed-accepted (attachment for_terminal) c h = refl
closed-accepted delivered c h = refl
closed-accepted (thrown e) c h = refl
closed-accepted stream_error c h = refl

-- Once a request has closed the input, no request of any later run, whatever is attached, delivered
-- or fails in it, has a byte accepted.
pub closed_accepts_nothing :
    (es : List Event) (c : Channel) → c.input_closed ≡ true → accepted_by es c ≡ []
unfolding accepted_by
closed_accepts_nothing [] c h = refl
closed_accepts_nothing (e ∷ es) c h =
    rw (closed-accepted e c h) (closed_accepts_nothing es (step e c) (closed-step e c h))
