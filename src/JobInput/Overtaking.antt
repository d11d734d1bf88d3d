-- ===== src/JobInput/Overtaking.antt =====
-- A close that overtakes data: the attachment's last test reads `inputClosed` when it runs.
use mira_bridge.Base.{
  ℕ, ◌≤◌, ◌≡◌, refl, ap, Bool, true, false, none, some, List, [], ◌∷◌, length, arith, ok,
}
use mira_bridge.JobInput.{
  Bytes, Message, writes, closes, Channel, listening, max_input_bytes, check_input, receive,
  on_input, enqueue, after_data, attach,
}
use mira_bridge.JobInput.Delivery.{
  Event, message, attachment, delivered, step, run, deliver, turn, attached_or_same,
}

abbrev pub input_message : Bytes → Bool → Message
input_message bytes closing = record {
  kind = none;
  data_base64 = some (record { decoded = bytes; canonical = true });
  close = some closing;
  cols = none;
  rows = none;
}

-- Data that fits a request passes the tests of an open channel that is attached or has room.
check_input-ok :
    (b : ℕ) (bs : Bytes) (c : Channel)
    → length (b ∷ bs) ≤ max_input_bytes
    → c.input_closed ≡ false
    → c.target_error ≡ false
    → c.buffered_bytes ≡ 0
    → check_input (input_message (b ∷ bs) false) c ≡ ok (b ∷ bs, false)
unfolding check_input
check_input-ok b bs c short still_open sound empty = ground (arith, short, still_open, sound, empty)

receive-data :
    (b : ℕ) (bs : Bytes) (c : Channel)
    → length (b ∷ bs) ≤ max_input_bytes
    → c.input_closed ≡ false
    → c.target_error ≡ false
    → c.buffered_bytes ≡ 0
    → receive (input_message (b ∷ bs) false) c ≡ on_input (ok (b ∷ bs, false)) c
unfolding receive
receive-data b bs c short still_open sound empty =
    ap (λ r. on_input r c) (check_input-ok b bs c short still_open sound empty)

-- The requests of the run: some data before the attachment, then, before its first chunk is written,
-- more data and a close of the input.
abbrev pub overtaking : ℕ → Bytes → ℕ → Bytes → List Event
overtaking a as' b bs =
    message (input_message (a ∷ as') false)
    ∷ attachment false
    ∷ message (input_message (b ∷ bs) false)
    ∷ message (input_message [] true)
    ∷ delivered
    ∷ delivered
    ∷ delivered
    ∷ delivered
    ∷ []

-- Whatever the two inputs are, within the limit of a request, the target of such a run is closed
-- before it is given the second input, which was accepted before the close was asked for.
pub close_overtakes :
    (a : ℕ) (as' : Bytes) (b : ℕ) (bs : Bytes)
    → length (a ∷ as') ≤ max_input_bytes
    → length (b ∷ bs) ≤ max_input_bytes
    → (run (overtaking a as' b bs) (listening false)).output
      ≡ writes (a ∷ as') ∷ closes ∷ writes (b ∷ bs) ∷ []
unfolding run step on_input attach attached_or_same deliver turn enqueue after_data
close_overtakes a as' b bs h k =
    let early : Channel = on_input (ok (a ∷ as', false)) (listening false) in
    let there : Channel = step (attachment false) early in
    rw (receive-data a as' (listening false) h refl refl refl)
      (rw (receive-data b bs there k refl refl refl) refl)
