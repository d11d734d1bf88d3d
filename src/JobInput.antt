-- ===== src/JobInput.antt =====
-- `listenForJobInput` of plugins/mira-bridge/packages/windows-worker/src/job-input.ts: the channel
-- between the requests for a Job's standard input and the process. An event is a request that has
-- been parsed, an attachment, a turn of the delivery chain or an error of the stream; base64 text is
-- what it decodes to and whether it encodes back to itself. Sockets and the framing are left out.
pub mod Delivery
pub mod Content
pub mod Fifo
pub mod Limits
pub mod Closing
pub mod Draining
pub mod Overtaking
use mira_bridge.Base.{
  ℕ, ◌+◌, ◌*◌, String, Bool, true, false, Option, none, some, List, [], ◌∷◌, ◌++◌, ◌==◌, ◌&&◌, ◌||◌,
  not, length, ltb, eqb, if◌then◌else◌, Result, ok, err, is_some, is_none,
}
use mira_bridge.Protocol.Errors.{
  BridgeError, bridge_error, invalid_argument, job_input_unavailable, internal_error, Thrown,
  as_bridge_error,
}

abbrev pub Bytes : Type 0
Bytes = List ℕ

abbrev pub max_input_bytes : ℕ
max_input_bytes = 64 * 1024

abbrev pub max_buffered_bytes : ℕ
max_buffered_bytes = 1024 * 1024

pub record Base64 : Type 0 where
  pub decoded : Bytes
  pub canonical : Bool

-- A parsed control message: `none` for a field that is absent or of another type, and for a number
-- that is no natural number. A `type` that is no text is some text that names no request.
pub record Message : Type 0 where
  pub kind : Option String
  pub data_base64 : Option Base64
  pub close : Option Bool
  pub cols : Option ℕ
  pub rows : Option ℕ

pub data Reply : Type 0 where
  wrote : ℕ → Bool → Reply
  resized : ℕ → ℕ → Reply
  refused : BridgeError → Reply

-- What the target is asked to do.
pub data Output : Type 0 where
  writes : Bytes → Output
  closes : Output
  resizes : ℕ → ℕ → Output

-- What waits in the chain `delivery`. An effect of a request has its request waiting for it; `write`
-- says whether that request closes the input, `close` how many bytes it wrote. `flush` is the effect
-- that the attachment enqueues, with the chunks still to be written, and `flush_end` its last test.
pub data Effect : Type 0 where
  write : Bytes → Bool → Effect
  close_input : ℕ → Effect
  resize : ℕ → ℕ → Effect
  flush : List Bytes → Effect
  flush_end : Effect

-- The local variables. `terminal` is the mode `conpty`; `failed` the error that has rejected the chain.
pub record Channel : Type 0 where
  pub terminal : Bool
  pub attached : Bool
  pub target_error : Bool
  pub input_closed : Bool
  pub buffered_bytes : ℕ
  pub buffered : List Bytes
  pub pending_resize : Option (ℕ × ℕ)
  pub delivery : List Effect
  pub failed : Option Thrown
  pub output : List Output
  pub replies : List Reply

abbrev pub listening : Bool → Channel
listening terminal = record {
  terminal = terminal;
  attached = false;
  target_error = false;
  input_closed = false;
  buffered_bytes = 0;
  buffered = [];
  pending_resize = none;
  delivery = [];
  failed = none;
  output = [];
  replies = [];
}

abbrev pub reply : Reply → Channel → Channel
reply r c = record c { replies = c.replies ++ r ∷ [] }

-- `enqueue(effect)`: on a rejected chain the request that waits fails with the chain's error.
unfoldable pub enqueue : Effect → Channel → Channel
enqueue effect c = elim c.failed [
  | none ↦ record c { delivery = c.delivery ++ effect ∷ [] }
  | some e ↦ reply (refused (as_bridge_error e)) c
]

abbrev pub is_resize : Message → Bool
is_resize m = elim m.kind [ none ↦ false | some k ↦ k == "resize" ]

abbrev pub is_input : Message → Bool
is_input m = elim m.kind [ none ↦ true | some k ↦ k == "input" ]

abbrev between : ℕ → ℕ → ℕ → Bool
between low high n = not (ltb n low) && not (ltb high n)

check_size : Bool → Option ℕ → Option ℕ → Result BridgeError (ℕ × ℕ)
check_size true (some cols) (some rows) =
    if between 20 500 cols && between 5 200 rows
    then ok (cols, rows)
    else err (bridge_error invalid_argument none)
check_size true _ _ = err (bridge_error invalid_argument none)
check_size false _ _ = err (bridge_error job_input_unavailable none)

-- The branch of a resize request.
on_size : Result BridgeError (ℕ × ℕ) → Channel → Channel
unfolding enqueue
on_size (err e) c = reply (refused e) c
on_size (ok size) c =
    if c.attached
    then enqueue (resize size.0 size.1) c
    else reply (resized size.0 size.1) (record c { pending_resize = some size })

-- The tests on an input request whose fields have their types, in the source's order.
unfoldable pub check_request : Bool → Base64 → Bool → Channel → Result BridgeError (Bytes × Bool)
check_request named text closing c =
    if not named
    then err (bridge_error invalid_argument none)
    else if ltb max_input_bytes (length text.decoded) || not text.canonical
    then err (bridge_error invalid_argument none)
    else if eqb (length text.decoded) 0 && not closing
    then err (bridge_error invalid_argument none)
    else if c.input_closed
    then err (bridge_error job_input_unavailable none)
    else if c.target_error
    then err (bridge_error job_input_unavailable none)
    else if not c.attached && ltb max_buffered_bytes (c.buffered_bytes + length text.decoded)
    then err (bridge_error job_input_unavailable (some true))
    else ok (text.decoded, closing)

-- The tests on an input request: the data and whether to close.
unfoldable pub check_input : Message → Channel → Result BridgeError (Bytes × Bool)
unfolding check_request
check_input m c = elim m.data_base64 [
  | none ↦ err (bridge_error invalid_argument none)
  | some text ↦ elim m.close [
    | none ↦ err (bridge_error invalid_argument none)
    | some closing ↦ check_request (is_input m) text closing c
  ]
]

-- What follows the data: `if (raw.close) ...` and the answer.
unfoldable pub after_data : ℕ → Bool → Channel → Channel
unfolding enqueue
after_data count closing c =
    if closing
    then if c.attached
      then enqueue (close_input count) (record c { input_closed = true })
      else reply (wrote count true) (record c { input_closed = true })
    else reply (wrote count c.input_closed) c

-- The rest of an input request that has passed the tests.
unfoldable pub on_input : Result BridgeError (Bytes × Bool) → Channel → Channel
unfolding enqueue after_data
on_input (err e) c = reply (refused e) c
on_input (ok ([], closing)) c = after_data 0 closing c
on_input (ok ((b ∷ bs), closing)) c =
    if c.attached
    then enqueue (write (b ∷ bs) closing) c
    else after_data (length (b ∷ bs)) closing (record c {
      buffered = c.buffered ++ (b ∷ bs) ∷ [];
      buffered_bytes = c.buffered_bytes + length (b ∷ bs);
    })

-- The handler of a complete message.
unfoldable pub receive : Message → Channel → Channel
unfolding check_size on_size on_input check_input
receive m c =
    if is_resize m
    then on_size (check_size c.terminal m.cols m.rows) c
    else on_input (check_input m c) c

-- `attach` and `attachTerminal`; the flag is that of the channel's mode.
unfoldable pub attach : Bool → Channel → Result BridgeError Channel
unfolding enqueue
attach for_terminal c =
    if not (for_terminal && c.terminal || not for_terminal && not c.terminal)
    then err (bridge_error internal_error none)
    else if c.attached
    then err (bridge_error internal_error none)
    else ok (
        enqueue (flush c.buffered)
          (record c { attached = true; buffered = []; buffered_bytes = 0 }))
