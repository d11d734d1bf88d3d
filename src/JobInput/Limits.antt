-- ===== src/JobInput/Limits.antt =====
-- The bound on what a Job's input channel keeps before the attachment, over every run, with failures
-- of the target and of the stream.
use mira_bridge.Base.{
  ℕ, ◌+◌, ◌≤◌, ◌≡◌, refl, sym, ap, ◌∙◌, subst, Bool, true, false, Option, none, some, List, [], ◌∷◌,
  ◌++◌, not, ◌&&◌, ◌||◌, length, length-append, flatten, flatten-append, if◌then◌else◌, if_true,
  if_false, Result, ok, err, arith, Bool-cases, inl, inr, ltb, eqb,
}
use mathlib.Core.List.{append-nil}
use mira_bridge.Protocol.Errors.{
  BridgeError, bridge_error, invalid_argument, job_input_unavailable, Thrown,
}
use mira_bridge.JobInput.{
  Bytes, Message, Effect, writes, write, close_input, resize, flush, flush_end, Channel,
  max_buffered_bytes, max_input_bytes, Base64, check_request, is_input, enqueue, is_resize,
  check_input, check_size, on_size, on_input, after_data, receive, attach, listening,
}
use mira_bridge.JobInput.Delivery.{
  emit, turn, deliver, reject, Event, message, attachment, delivered, thrown, stream_error, step,
  run, attached_or_same,
}

pub record Bounded (c : Channel) : Type 0 where
  pub counted : c.buffered_bytes ≡ length (flatten c.buffered)
  pub limited : c.buffered_bytes ≤ max_buffered_bytes

-- Two states with the same buffer.
record SameBuffer (c c' : Channel) : Type 0 where
  bytes : c'.buffered_bytes ≡ c.buffered_bytes
  chunks : c'.buffered ≡ c.buffered

Bounded-same : (c c' : Channel) → SameBuffer c c' → Bounded c → Bounded c'
Bounded-same c c' s b = record {
  counted = s.bytes ∙ b.counted ∙ ap (λ t. length (flatten t)) (sym s.chunks);
  limited = omega (arith, s.bytes, b.limited);
}

enqueue-same : (e : Effect) (c : Channel) → SameBuffer c (enqueue e c)
unfolding enqueue
enqueue-same e c = record { bytes = ground arith; chunks = ground arith }

after_data-same : (n : ℕ) (closing : Bool) (c : Channel) → SameBuffer c (after_data n closing c)
unfolding after_data
after_data-same n closing c =
    let e = enqueue-same (close_input n) (record c { input_closed = true }) in
    record { bytes = ground (arith, e.bytes); chunks = ground (arith, e.chunks) }

turn-same : (t : Option Thrown) (es : List Effect) (c : Channel) → SameBuffer c (turn t es c)
unfolding turn reject
turn-same t [] c = record { bytes = refl; chunks = refl }
turn-same none (write bytes closing ∷ es) c =
    let e =
      after_data-same (length bytes) closing (emit (writes bytes) (record c { delivery = es })) in
    record { bytes = e.bytes; chunks = e.chunks }
turn-same none (close_input n ∷ es) c = record { bytes = refl; chunks = refl }
turn-same none (resize x y ∷ es) c = record { bytes = refl; chunks = refl }
turn-same (some e) (write bytes closing ∷ es) c = record { bytes = refl; chunks = refl }
turn-same (some e) (close_input n ∷ es) c = record { bytes = refl; chunks = refl }
turn-same (some e) (resize x y ∷ es) c = record { bytes = refl; chunks = refl }
turn-same none (flush (chunk ∷ chunks) ∷ es) c = record { bytes = refl; chunks = refl }
turn-same (some e) (flush (chunk ∷ chunks) ∷ es) c = record { bytes = refl; chunks = refl }
turn-same none (flush [] ∷ es) c = record { bytes = ground arith; chunks = ground arith }
turn-same (some e) (flush [] ∷ es) c = record { bytes = ground arith; chunks = ground arith }
turn-same none (flush_end ∷ es) c = record { bytes = ground arith; chunks = ground arith }
turn-same (some e) (flush_end ∷ es) c = record { bytes = ground arith; chunks = ground arith }

on_size-same : (r : Result BridgeError (ℕ × ℕ)) (c : Channel) → SameBuffer c (on_size r c)
unfolding on_size
on_size-same (err e) c = record { bytes = refl; chunks = refl }
on_size-same (ok size) c =
    let e = enqueue-same (resize size.0 size.1) c in
    record { bytes = ground (arith, e.bytes); chunks = ground (arith, e.chunks) }

-- What an input request that has passed the tests satisfies: it fits what is left of the buffer, and
-- the input is still open.
unfoldable pub Admissible : Channel → Result BridgeError (Bytes × Bool) → Type 0
Admissible c (err e) = Unit
Admissible c (ok request) =
    (c.attached ≡ false → c.buffered_bytes + length request.0 ≤ max_buffered_bytes)
    × (c.input_closed ≡ false)

refused-or :
    (c : Channel) (b : Bool) (e : BridgeError) (r : Result BridgeError (Bytes × Bool))
    → (b ≡ false → Admissible c r)
    → Admissible c (if b then err e else r)
unfolding Admissible
refused-or c true e r h = tt
refused-or c false e r h = h refl

tested-Admissible :
    (text : Base64) (closing : Bool) (c : Channel)
    → c.input_closed ≡ false
    → (not c.attached && ltb max_buffered_bytes (c.buffered_bytes + length text.decoded)) ≡ false
    → Admissible c (ok (text.decoded, closing))
unfolding Admissible
tested-Admissible text closing c still_open room = (λ n. ground (arith, room, n), still_open)

check_request-Admissible :
    (named : Bool) (text : Base64) (closing : Bool) (c : Channel)
    → Admissible c (check_request named text closing c)
unfolding check_request
check_request-Admissible named text closing c =
    let last = λ (still_open : c.input_closed ≡ false).
      refused-or c
        (not c.attached && ltb max_buffered_bytes (c.buffered_bytes + length text.decoded))
        (bridge_error job_input_unavailable (some true)) (ok (text.decoded, closing))
        (tested-Admissible text closing c still_open) in
    let fifth = λ (still_open : c.input_closed ≡ false).
      refused-or c c.target_error (bridge_error job_input_unavailable none) _
        (λ _. last still_open) in
    let fourth = refused-or c c.input_closed (bridge_error job_input_unavailable none) _ fifth in
    let third =
      refused-or c (eqb (length text.decoded) 0 && not closing) (bridge_error invalid_argument none)
        _ (λ _. fourth) in
    let second =
      refused-or c (ltb max_input_bytes (length text.decoded) || not text.canonical)
        (bridge_error invalid_argument none) _ (λ _. third) in
    refused-or c (not named) (bridge_error invalid_argument none) _ (λ _. second)

pub check_input-Admissible : (m : Message) (c : Channel) → Admissible c (check_input m c)
unfolding check_input Admissible
check_input-Admissible m c =
    elim m.data_base64
      as (λ d. Admissible c (elim d [
        | none ↦ err (bridge_error invalid_argument none)
        | some text ↦ elim m.close [
          | none ↦ err (bridge_error invalid_argument none)
          | some closing ↦ check_request (is_input m) text closing c
        ]
      ])) [
        | none ↦ tt
        | some text ↦
            elim m.close
              as (λ l. Admissible c (elim l [
                | none ↦ err (bridge_error invalid_argument none)
                | some closing ↦ check_request (is_input m) text closing c
              ])) [
                | none ↦ tt
                | some closing ↦ check_request-Admissible (is_input m) text closing c
              ]
      ]

on_input-Bounded :
    (r : Result BridgeError (Bytes × Bool)) (c : Channel)
    → Admissible c r
    → Bounded c
    → Bounded (on_input r c)
unfolding on_input Admissible flatten
on_input-Bounded (err e) c h b = record { counted = b.counted; limited = b.limited }
on_input-Bounded (ok ([], closing)) c h b = Bounded-same c _ (after_data-same 0 closing c) b
on_input-Bounded (ok ((x ∷ xs), closing)) c h b = elim (Bool-cases c.attached) [
  | inl a ↦
      subst Bounded (sym (if_true c.attached _ _ a))
        (Bounded-same c _ (enqueue-same (write (x ∷ xs) closing) c) b)
  | inr n ↦
      subst Bounded (sym (if_false c.attached _ _ n)) (
        Bounded-same stored _ (after_data-same (length (x ∷ xs)) closing stored) (stored-Bounded n))
]
  where
    stored : Channel
    stored = record c {
      buffered = c.buffered ++ (x ∷ xs) ∷ [];
      buffered_bytes = c.buffered_bytes + length (x ∷ xs);
    }

    stored-Bounded : c.attached ≡ false → Bounded stored
    stored-Bounded n = record {
      counted = rw (flatten-append, append-nil, length-append, b.counted) refl;
      limited = h.0 n;
    }

receive-Bounded : (m : Message) (c : Channel) → Bounded c → Bounded (receive m c)
unfolding receive
receive-Bounded m c b = elim (Bool-cases (is_resize m)) [
  | inl y ↦ rw y (Bounded-same c _ (on_size-same (check_size c.terminal m.cols m.rows) c) b)
  | inr n ↦ rw n (on_input-Bounded (check_input m c) c (check_input-Admissible m c) b)
]

attach-Bounded :
    (for_terminal : Bool) (c : Channel)
    → Bounded c
    → Bounded (attached_or_same c (attach for_terminal c))
unfolding attach attached_or_same flatten
attach-Bounded for_terminal c b =
    elim (Bool-cases (not (for_terminal && c.terminal || not for_terminal && not c.terminal))) [
      | inl wrong ↦ subst (λ r. Bounded (attached_or_same c r)) (sym (if_true _ _ _ wrong)) b
      | inr right ↦
          subst (λ r. Bounded (attached_or_same c r)) (sym (if_false _ _ _ right))
            (elim (Bool-cases c.attached) [
              | inl twice ↦
                  subst (λ r. Bounded (attached_or_same c r)) (sym (if_true c.attached _ _ twice)) b
              | inr first ↦
                  subst (λ r. Bounded (attached_or_same c r)) (sym (if_false c.attached _ _ first))
                    (Bounded-same _ _
                      (enqueue-same (flush c.buffered)
                        (record c { attached = true; buffered = []; buffered_bytes = 0 }))
                      (record { counted = refl; limited = omega arith }))
            ])
    ]

step-Bounded : (e : Event) (c : Channel) → Bounded c → Bounded (step e c)
unfolding step deliver
step-Bounded (message m) c b = receive-Bounded m c b
step-Bounded (attachment for_terminal) c b = attach-Bounded for_terminal c b
step-Bounded delivered c b = Bounded-same c _ (turn-same none c.delivery c) b
step-Bounded (thrown e) c b = Bounded-same c _ (turn-same (some e) c.delivery c) b
step-Bounded stream_error c b =
    Bounded-same c _ (record { bytes = ground arith; chunks = ground arith }) b

-- In every run of the channel, failures of the target and of the stream included, the counter of the
-- buffer is the length of what is buffered and is at most 1 MiB.
pub run-Bounded : (terminal : Bool) (es : List Event) → Bounded (run es (listening terminal))
unfolding run flatten
run-Bounded terminal es =
    from es (listening terminal) (record { counted = refl; limited = omega arith })
  where
    from : (es : List Event) (c : Channel) → Bounded c → Bounded (run es c)
    from [] c b = b
    from (e ∷ es) c b = from es (step e c) (step-Bounded e c b)
