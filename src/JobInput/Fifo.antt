-- ===== src/JobInput/Fifo.antt =====
-- The input channel is a queue: what the target is given is what was accepted, in its order.
use mira_bridge.Base.{
  ℕ, ◌≡◌, refl, sym, ap, ◌∙◌, subst, Bool, true, false, Option, none, some, List, [], ◌∷◌, ◌++◌,
  not, ◌&&◌, ◌||◌, length, flatten, if◌then◌else◌, if_true, if_false, Bool-cases, inl, inr, All,
}
use mathlib.Core.List.{append_assoc, append-nil}
use mira_bridge.JobInput.{
  Output, writes, closes, resizes, Effect, write, close_input, resize, flush, flush_end, Channel,
  enqueue, attach, listening,
}
use mira_bridge.JobInput.Delivery.{
  turn, deliver, Event, message, attachment, delivered, thrown, stream_error, step, run,
  attached_or_same,
}
use mira_bridge.JobInput.Content.{
  content, written, in_delivery, accepted, accepted_by, Sound, Grows, same-Grows, reply-Grows,
  after_data-Grows, receive-Grows, enqueue-pushed, written-append,
}

-- The state after the head of the chain has been replaced and the target has been called.
abbrev after_call : List Output → List Effect → Channel → Channel
after_call outputs effects c = record c { output = c.output ++ outputs; delivery = effects }

call-Grows :
    (head : Effect) (rest : List Effect) (c : Channel) (outputs : List Output)
    (effects : List Effect)
    → c.delivery ≡ head ∷ rest
    → written outputs ++ in_delivery effects ≡ in_delivery (head ∷ rest)
    → Sound c
    → Grows [] c (after_call outputs effects c)
unfolding content
call-Grows head rest c outputs effects h moved s = record {
  sound = record { unbroken = s.unbroken; idle = λ a. cc (h, s.idle a); unbuffered = s.unbuffered };
  grown = rw (written-append, append-nil, h, ← moved, append_assoc, append_assoc) refl;
}

-- The attachment's effect keeps the queue's bytes, also when its target fails on none of them.
turn-Grows :
    (effects : List Effect) (c : Channel)
    → c.delivery ≡ effects
    → Sound c
    → Grows [] c (turn none effects c)
unfolding turn written in_delivery flatten
turn-Grows [] c h s = same-Grows c s
turn-Grows (write bytes closing ∷ rest) c h s =
    after_data-Grows (length bytes) closing [] c (after_call (writes bytes ∷ []) rest c) (
      call-Grows (write bytes closing) rest c (writes bytes ∷ []) rest h
        (ap (λ t. t ++ in_delivery rest) (append-nil bytes)) s)
turn-Grows (close_input count ∷ rest) c h s =
    reply-Grows _ [] c (after_call (closes ∷ []) rest c)
      (call-Grows (close_input count) rest c (closes ∷ []) rest h refl s)
turn-Grows (resize cols rows ∷ rest) c h s =
    reply-Grows _ [] c (after_call (resizes cols rows ∷ []) rest c)
      (call-Grows (resize cols rows) rest c (resizes cols rows ∷ []) rest h refl s)
turn-Grows (flush (chunk ∷ chunks) ∷ rest) c h s =
    call-Grows (flush (chunk ∷ chunks)) rest c (writes chunk ∷ []) (flush chunks ∷ rest) h
      (rw (append-nil, append_assoc) refl) s
turn-Grows (flush [] ∷ rest) c h s = resized_or_not c.pending_resize
  where
    quiet : Grows [] c (record c { delivery = flush_end ∷ rest })
    quiet =
        subst (λ o. Grows [] c (record c { output = o; delivery = flush_end ∷ rest }))
          (append-nil c.output) (call-Grows (flush []) rest c [] (flush_end ∷ rest) h refl s)

    resized_or_not :
        (pending : Option (ℕ × ℕ))
        → Grows [] c (elim pending as (λ _. Channel) [
          | none ↦ record c { delivery = flush_end ∷ rest }
          | some size ↦
              if c.terminal
              then after_call (resizes size.0 size.1 ∷ []) (flush_end ∷ rest) c
              else record c { delivery = flush_end ∷ rest }
        ])
    resized_or_not none = quiet
    resized_or_not (some size) = elim (Bool-cases c.terminal) [
      | inl t ↦
          subst (Grows [] c) (sym (if_true c.terminal _ _ t))
            (call-Grows (flush []) rest c (resizes size.0 size.1 ∷ []) (flush_end ∷ rest) h refl s)
      | inr p ↦ subst (Grows [] c) (sym (if_false c.terminal _ _ p)) quiet
    ]
turn-Grows (flush_end ∷ rest) c h s = elim (Bool-cases c.input_closed) [
  | inl y ↦
      subst (Grows [] c) (sym (if_true c.input_closed _ _ y))
        (call-Grows flush_end rest c (closes ∷ []) rest h refl s)
  | inr n ↦ subst (Grows [] c) (sym (if_false c.input_closed _ _ n)) (
      subst (λ o. Grows [] c (record c { output = o; delivery = rest })) (append-nil c.output)
        (call-Grows flush_end rest c [] rest h refl s))
]

attach-Grows :
    (for_terminal : Bool) (c : Channel)
    → Sound c
    → Grows [] c (attached_or_same c (attach for_terminal c))
unfolding attach attached_or_same content in_delivery flatten
attach-Grows for_terminal c s =
    elim (Bool-cases (not (for_terminal && c.terminal || not for_terminal && not c.terminal))) [
      | inl wrong ↦
          subst (λ r. Grows [] c (attached_or_same c r)) (sym (if_true _ _ _ wrong))
            (same-Grows c s)
      | inr right ↦
          subst (λ r. Grows [] c (attached_or_same c r)) (sym (if_false _ _ _ right))
            (elim (Bool-cases c.attached) [
              | inl twice ↦
                  subst (λ r. Grows [] c (attached_or_same c r))
                    (sym (if_true c.attached _ _ twice)) (same-Grows c s)
              | inr first ↦
                  subst (λ r. Grows [] c (attached_or_same c r))
                    (sym (if_false c.attached _ _ first)) (connected first)
            ])
    ]
  where
    fresh : Channel
    fresh = record c { attached = true; buffered = []; buffered_bytes = 0 }

    connected : c.attached ≡ false → Grows [] c (enqueue (flush c.buffered) fresh)
    connected n =
        subst (Grows [] c) (sym (enqueue-pushed (flush c.buffered) fresh s.unbroken)) (record {
          sound = record { unbroken = s.unbroken; idle = λ h. cc; unbuffered = λ h. refl };
          grown = rw (s.idle n, append-nil, append-nil, append-nil) refl;
        })

-- An event that is not a failure of the target.
abbrev pub Succeeds : Event → Type 0
Succeeds e = elim e [ thrown t ↦ ⊥ | _ ↦ Unit ]

step-Grows : (e : Event) (c : Channel) → Succeeds e → Sound c → Grows (accepted e c) c (step e c)
unfolding step deliver accepted content
step-Grows (message m) c h s = receive-Grows m c s
step-Grows (attachment for_terminal) c h s = attach-Grows for_terminal c s
step-Grows delivered c h s = turn-Grows c.delivery c refl s
step-Grows (thrown t) c h s = absurd h
step-Grows stream_error c h s = elim (Bool-cases (c.attached && not c.terminal)) [
  | inl y ↦ subst (Grows [] c) (sym (if_true (c.attached && not c.terminal) _ _ y)) (record {
    sound = record { unbroken = s.unbroken; idle = s.idle; unbuffered = s.unbuffered };
    grown = sym (append-nil (content c));
  })
  | inr n ↦
      subst (Grows [] c) (sym (if_false (c.attached && not c.terminal) _ _ n)) (same-Grows c s)
]

-- Without a failure of the target, a run of the channel is a run of a queue: its bytes, given to the
-- target, in the chain or in the buffer, are those it had followed by the accepted ones.
pub run-Grows :
    (es : List Event) (c : Channel)
    → All Succeeds es
    → Sound c
    → Grows (accepted_by es c) c (run es c)
unfolding run accepted_by
run-Grows [] c h s = same-Grows c s
run-Grows (e ∷ es) c h s =
    let first = step-Grows e c h.0 s in
    let later = run-Grows es (step e c) h.1 first.sound in
    record {
      sound = later.sound;
      grown =
          later.grown
          ∙ ap (λ t. t ++ accepted_by es (step e c)) first.grown
          ∙ append_assoc (content c) (accepted e c) (accepted_by es (step e c));
    }

pub listening-Sound : (terminal : Bool) → Sound (listening terminal)
listening-Sound terminal = record { unbroken = refl; idle = λ h. refl; unbuffered = λ h. refl }

-- In every interleaving of requests, attachments and deliveries in which the target does not fail, the
-- bytes that the target has been given, then those in the delivery chain, then those in the buffer
-- are exactly the bytes of the accepted requests in the order of their acceptance.
pub run-content :
    (terminal : Bool) (es : List Event)
    → All Succeeds es
    → content (run es (listening terminal)) ≡ accepted_by es (listening terminal)
unfolding content written in_delivery flatten
run-content terminal es h = (run-Grows es (listening terminal) h (listening-Sound terminal)).grown
